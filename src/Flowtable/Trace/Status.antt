-- ===== src/Flowtable/Trace/Status.antt =====
-- The life of one flow as its events tell it.
use packetpipe.Common.{List, [], ◌∷◌, Option, none, some, if◌then◌else◌}
use packetpipe.Events.{FlowKey, FlowState, FlowEvent, FlowEventType, start, end, stats, key_eq}

-- `broken` is a sequence that no flow may have: a start of an open flow, or any other event of a
-- closed one.
pub data Status : Type 0 where
  closed opened broken : Status

abbrev pub move : FlowEventType → Status → Status
move start closed = opened
move stats opened = opened
move end opened = closed
move _ _ = broken

-- The status of a key after a history, newest event first.
unfoldable pub status : FlowKey → List FlowEvent → Status
status k [] = closed
status k (e ∷ es) =
    let before = status k es in if key_eq e.state.key k then move e.type before else before

-- What the table says of a key.
abbrev pub held : Option FlowState → Status
held none = closed
held (some s) = opened
