-- ===== src/Flowtable/PacketCount.antt =====
-- The packets that the table of src/flowtable/flow_table.cpp accounts for.
use packetpipe.Common.{ℕ, ◌+◌, ◌%◌, ◌^◌, ◌≡◌, some, List, [], ◌∷◌, arith}
use packetpipe.Events.{FlowKey, FlowState, FlowEvent, FlowEventType, start, end, stats}
use packetpipe.Packets.{ParsedPacket}
use packetpipe.Flowtable.FlowMap.{Entries, find, erase, modify}
use packetpipe.Flowtable.Trace.{events_of}
use packetpipe.Flowtable.{FlowTable, bump}

-- The packets of the flows that are held.
unfoldable pub held_packets : Entries → ℕ
held_packets [] = 0
held_packets ((k, s) ∷ es) = s.packet_count + held_packets es

abbrev pub final_count : FlowEventType → FlowState → ℕ
final_count end s = s.packet_count
final_count start s = 0
final_count stats s = 0

-- The packets of the flows that ended, as their end events report them.
unfoldable pub ended_packets : List FlowEvent → ℕ
ended_packets [] = 0
ended_packets (e ∷ es) = final_count e.type e.state + ended_packets es

pub held_packets-erase :
    (k : FlowKey) (s : FlowState) (es : Entries)
    → find k es ≡ some s
    → held_packets (erase k es) + s.packet_count ≡ held_packets es
unfolding held_packets find erase
held_packets-erase k s [] h = ground arith
held_packets-erase k s ((j, r) ∷ es) h = ground (arith, held_packets-erase k s es)

pub held_packets-modify :
    (pkt : ParsedPacket) (k : FlowKey) (s : FlowState) (es : Entries)
    → find k es ≡ some s
    → held_packets (modify k (bump pkt) es) % 2 ^ 64 ≡ (held_packets es + 1) % 2 ^ 64
unfolding held_packets find modify bump
held_packets-modify pkt k s [] h = ground arith
held_packets-modify pkt k s ((j, r) ∷ es) h = ground (arith, held_packets-modify pkt k s es)

-- The packets that a table accounts for.
abbrev pub accounted : {S : Type 0} → FlowTable (S × List FlowEvent) → ℕ
accounted t = held_packets t.flows + ended_packets (events_of t) + t.drop_count
