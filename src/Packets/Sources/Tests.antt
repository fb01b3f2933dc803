-- ===== src/Packets/Sources/Tests.antt =====
-- The sources of src/packets on one frame that holds no packet.
use packetpipe.Common.{ℕ, ◌≡◌, refl, true, Option, some, [], ◌∷◌, ◌++◌, replicate, arith}
use packetpipe.Common.Int.{pos}
use packetpipe.Metrics.{Metrics, registry, inc_received, inc_dropped}
use packetpipe.Packets.{ParsedPacket}
use packetpipe.Packets.Outcome.{reject_if}
use packetpipe.Packets.Decoder.{read, read16, link_layer, network_layer, decode}
use packetpipe.Packets.Sources.{
  CapturedFrame, Answers, broken, finished, count_drop, run_file, run_live, destroy,
}
use packetpipe.Packets.Sources.Handled.{Counts, run_file-Counts}
use packetpipe.Packets.Sources.Released.{IsBalanced, destroy-IsBalanced}

-- An ARP request, cut short.
abbrev arp : CapturedFrame
arp = record {
  bytes = replicate 12 0xff ++ 8 ∷ 6 ∷ [];
  caplen = 14;
  ts = record { tv_sec = pos 1; tv_usec = pos 0 };
}

abbrev well : Answers
well = record {
  cap_net_raw = true;
  opened = true;
  compiled = true;
  filter_set = true;
  nonblocking = true;
}

abbrev on_packet : ParsedPacket → Metrics → Metrics
on_packet pkt m = inc_received m

abbrev itself : Option ((Metrics → Metrics) → Metrics → Metrics)
itself = some (λ f m. f m)

abbrev Counted : ℕ → ℕ → Metrics → Type 0
Counted a b m = (m.packets_received ≡ a) × (m.packets_dropped ≡ b)

on_packet-Counts : Counts on_packet itself Counted
unfolding inc_received inc_dropped count_drop
on_packet-Counts = record {
  calls_back = λ a b pkt m is (r, d). (omega (arith, r), d);
  drops = λ a b m (r, d). (r, omega (arith, d));
}

registry-Counted : Counted 0 0 registry
unfolding registry
registry-Counted = (refl, refl)

run_file-Counts_example :
    let e = run_file on_packet itself well "ip or arp" (arp ∷ arp ∷ []) registry in
    (e.ending ≡ finished) × Counted 0 2 e.state
unfolding decode link_layer network_layer read16 read reject_if
run_file-Counts_example =
    run_file-Counts on_packet itself Counted on_packet-Counts well "ip or arp" (arp ∷ arp ∷ [])
      registry refl refl refl (omega arith) registry-Counted

destroy-IsBalanced_example :
    IsBalanced (destroy (run_file on_packet itself well "tcp" (arp ∷ []) registry))
    × IsBalanced (
        destroy (
          run_live on_packet itself well "tcp"
            (record { frames = arp ∷ []; result = broken } ∷ [])
            registry))
destroy-IsBalanced_example =
    destroy-IsBalanced on_packet itself well "tcp" (arp ∷ [])
      (record { frames = arp ∷ []; result = broken } ∷ []) registry
