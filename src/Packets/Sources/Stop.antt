-- ===== src/Packets/Sources/Stop.antt =====
-- `stop()` of src/packets/pcap_file_source.cpp and live_capture_source.cpp, which a signal handler may call
-- on any thread and at any time of a run. A `Capture` is what both see: where the run stands, the
-- member `handle_`, the flag that `pcap_breakloop` raises in the handle, and where `stop` stands.
-- `handle_` is an ordinary pointer, which `stop` reads twice.
pub mod Reached
mod Tests
use packetpipe.Common.{◌≡◌, ◌≢◌, Bool, true, false}

pub data SourceKind : Type 0 where
  file live : SourceKind

-- `setting` sets the filter and the mode of the open handle, `looping` is in `pcap_loop` or in the loop
-- around `pcap_dispatch`, `leaving` behind it, `closed` between `pcap_close(handle_)` and the assignment
-- of the null pointer, `over` behind `run`. Where `run` throws: `rejected` is between the two lines
-- after an error of the filter, `failed` has left `run` with the null pointer, `abandoned` with an
-- open handle. The destructor is in `destroying` between its two assignments, and ends in `destroyed`.
pub data Phase : Type 0 where
  before setting looping leaving closed over : Phase
  rejected failed abandoned destroying destroyed : Phase

pub data Pointer : Type 0 where
  null valid freed : Pointer

-- `tested` is behind the test of `handle_`.
pub data StopAt : Type 0 where
  idle tested : StopAt

pub record Capture : Type 0 where
  pub phase : Phase
  pub handle : Pointer
  pub broken : Bool
  pub stop : StopAt
  pub faulted : Bool

abbrev pub constructed : Capture
constructed = record { phase = before; handle = null; broken = false; stop = idle; faulted = false }

-- One step of the capturing thread. Only a live capture sets the mode of its handle and looks at the
-- errors of its loop, and only a file has an end.
pub data Runs (k : SourceKind) (c : Capture) : Capture → Type 0 where
  opens : c.phase ≡ before → Runs k c (record c { phase = setting; handle = valid; broken = false })
  open_fails : c.phase ≡ before → Runs k c (record c { phase = failed })
  filter_fails : c.phase ≡ setting → Runs k c (record c { phase = rejected; handle = freed })
  rejects : c.phase ≡ rejected → Runs k c (record c { phase = failed; handle = null })
  nonblock_fails : k ≡ live → c.phase ≡ setting → Runs k c (record c { phase = abandoned })
  is_set : c.phase ≡ setting → Runs k c (record c { phase = looping })
  dispatches : c.phase ≡ looping → Runs k c c
  dispatch_fails : k ≡ live → c.phase ≡ looping → Runs k c (record c { phase = abandoned })
  breaks :
      c.phase ≡ looping → c.broken ≡ true → Runs k c (record c { phase = leaving; broken = false })
  ends : k ≡ file → c.phase ≡ looping → Runs k c (record c { phase = leaving })
  closes : c.phase ≡ leaving → Runs k c (record c { phase = closed; handle = freed })
  nulls : c.phase ≡ closed → Runs k c (record c { phase = over; handle = null })
  releases : c.phase ≡ abandoned → Runs k c (record c { phase = destroying; handle = freed })
  destroys_freed : c.phase ≡ destroying → Runs k c (record c { phase = destroyed; handle = null })
  destroys_over : c.phase ≡ over → Runs k c (record c { phase = destroyed })
  destroys_failed : c.phase ≡ failed → Runs k c (record c { phase = destroyed })

-- One step of a call of `stop`. To break the loop of a handle that is not open is undefined, and so is a
-- call on a source that is destroyed, which `g_source_ptr` of src/main.cpp still points to.
pub data Stops (c : Capture) : Capture → Type 0 where
  finds_null : c.stop ≡ idle → c.handle ≡ null → Stops c c
  tests : c.stop ≡ idle → c.handle ≢ null → Stops c (record c { stop = tested })
  interrupts :
      c.stop ≡ tested → c.handle ≡ valid → Stops c (record c { broken = true; stop = idle })
  faults : c.stop ≡ tested → c.handle ≢ valid → Stops c (record c { stop = idle; faulted = true })
  dangles : c.phase ≡ destroyed → Stops c (record c { stop = idle; faulted = true })

-- What the capturing thread and calls of `stop` reach together, and what the thread reaches alone.
pub data Reach (k : SourceKind) (s : Capture) : Capture → Type 0 where
  here : Reach k s s
  runs : {c d : Capture} → Reach k s c → Runs k c d → Reach k s d
  stops : {c d : Capture} → Reach k s c → Stops c d → Reach k s d

pub data Alone (k : SourceKind) (s : Capture) : Capture → Type 0 where
  here : Alone k s s
  runs : {c d : Capture} → Alone k s c → Runs k c d → Alone k s d
