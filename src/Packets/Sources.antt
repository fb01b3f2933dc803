-- ===== src/Packets/Sources.antt =====
-- src/packets/pcap_file_source.cpp and live_capture_source.cpp. libpcap and libcap are outside the
-- repository: `Answers` holds what their calls answer in one run, each `true` for success, and the
-- frames that the loops hand to `pcap_handler` are lists. `S` is the state that the callback works
-- on, and `registry` the pointer to the metrics, `none` the null pointer: it applies a change to the
-- registry in that state. A run is one value of type `Ended`, with the calls it made, newest first.
pub mod Released
pub mod Handled
pub mod Stop
mod Tests
use Prim.Native.String.{String, ◌++◌}
use packetpipe.Common.{ℕ, Bool, true, false, Option, none, some, List, [], ◌∷◌, if◌then◌else◌}
use packetpipe.Config.Parser.{is_empty}
use packetpipe.Metrics.{Metrics, inc_dropped}
use packetpipe.Packets.{ParsedPacket}
use packetpipe.Packets.Outcome.{Outcome, ok, reject, fault, ◌>>=◌}
use packetpipe.Packets.Decoder.{Timeval, decode}

-- A `pcap_pkthdr` with the bytes behind it.
pub record CapturedFrame : Type 0 where
  pub bytes : List ℕ
  pub caplen : ℕ
  pub ts : Timeval

pub record Answers : Type 0 where
  pub cap_net_raw : Bool
  pub opened : Bool
  pub compiled : Bool
  pub filter_set : Bool
  pub nonblocking : Bool

-- The result of one `pcap_dispatch`.
pub data DispatchEnd : Type 0 where
  count broken failed : DispatchEnd

pub record Dispatch : Type 0 where
  pub frames : List CapturedFrame
  pub result : DispatchEnd

pub data SourceError : Type 0 where
  no_capability cannot_open bad_filter filter_not_set still_blocking dispatch_error : SourceError

-- `faulted` is a read outside a frame, `running` a live capture that has not ended.
pub data Ending : Type 0 where
  finished running faulted : Ending
  thrown : SourceError → Ending

-- The calls that acquire and release.
pub data PcapCall : Type 0 where
  opening closing compiling freeing : PcapCall

pub record Ended (S : Type 0) : Type 0 where
  pub ending : Ending
  pub state : S
  pub handle : Bool
  pub calls : List PcapCall

module _ {S : Type 0} where
  unfoldable pub count_drop : Option ((Metrics → Metrics) → S → S) → S → S
  unfolding inc_dropped
  count_drop none s = s
  count_drop (some on_metrics) s = on_metrics inc_dropped s

  -- `pcap_close(handle_); handle_ = nullptr;` and an end.
  unfoldable pub close : Ending → S → List PcapCall → Ended S
  close e s calls = record { ending = e; state = s; handle = false; calls = closing ∷ calls }

  unfoldable pub leave : Ending → S → List PcapCall → Ended S
  leave e s calls = record { ending = e; state = s; handle = true; calls = calls }

  -- The block of the BPF filter, and what follows it.
  unfoldable pub with_filter :
      Answers → String → S → List PcapCall → (List PcapCall → Ended S) → Ended S
  unfolding close
  with_filter a filter s calls next =
      if is_empty filter
      then next calls
      else if a.compiled
      then (if a.filter_set
          then next (freeing ∷ compiling ∷ calls)
          else close (thrown filter_not_set) s (freeing ∷ compiling ∷ calls))
      else close (thrown bad_filter) s calls

  -- What the live loop does with the result of a `pcap_dispatch`; `rest` is its next turns.
  unfoldable pub after_dispatch : DispatchEnd → S → List PcapCall → Ended S → Ended S
  unfolding close leave
  after_dispatch count s calls rest = rest
  after_dispatch broken s calls rest = close finished s calls
  after_dispatch failed s calls rest = leave (thrown dispatch_error) s calls

  -- The destructor.
  unfoldable pub destroy : Ended S → Ended S
  destroy e = if e.handle then record e { handle = false; calls = closing ∷ e.calls } else e

module _ {S : Type 0} (callback : ParsedPacket → S → S)
    (registry : Option ((Metrics → Metrics) → S → S)) where
  unfoldable pub handle_decoded : Outcome ParsedPacket → S → Outcome S
  unfolding count_drop
  handle_decoded (ok pkt) s = ok (callback pkt s)
  handle_decoded reject s = ok (count_drop registry s)
  handle_decoded fault s = fault

  unfoldable pub pcap_handler : CapturedFrame → S → Outcome S
  unfolding handle_decoded
  pcap_handler f s = handle_decoded (decode (some f.bytes) f.caplen f.ts) s

  -- The frames of `pcap_loop`, or of one `pcap_dispatch`.
  unfoldable pub handle_all : List CapturedFrame → S → Outcome S
  unfolding pcap_handler
  handle_all [] s = ok s
  handle_all (f ∷ fs) s = pcap_handler f s >>= λ s'. handle_all fs s'

  unfoldable pub read_file : List CapturedFrame → S → List PcapCall → Ended S
  unfolding handle_all close leave
  read_file fs s calls = elim (handle_all fs s) [
    | ok s' ↦ close finished s' calls
    | reject ↦ leave faulted s calls
    | fault ↦ leave faulted s calls
  ]

  -- `PcapFileSource::run` from a null handle. What `pcap_loop` returns is not looked at.
  unfoldable pub run_file : Answers → String → List CapturedFrame → S → Ended S
  unfolding with_filter read_file
  run_file a filter fs s =
      if a.opened
      then with_filter a filter s (opening ∷ []) (read_file fs s)
      else record { ending = thrown cannot_open; state = s; handle = false; calls = [] }

  -- The loop around `pcap_dispatch`; a list that ends first is a capture that still runs.
  unfoldable pub dispatch_loop : List Dispatch → S → List PcapCall → Ended S
  unfolding handle_all after_dispatch
  dispatch_loop [] s calls = leave running s calls
  dispatch_loop (d ∷ ds) s calls = elim (handle_all d.frames s) [
    | ok s' ↦ let rest = dispatch_loop ds s' calls in after_dispatch d.result s' calls rest
    | reject ↦ leave faulted s calls
    | fault ↦ leave faulted s calls
  ]

  unfoldable pub read_live : Answers → List Dispatch → S → List PcapCall → Ended S
  unfolding dispatch_loop
  read_live a ds s calls =
      if a.nonblocking then dispatch_loop ds s calls else leave (thrown still_blocking) s calls

  -- The constructor of `LiveCaptureSource` and its `run`.
  unfoldable pub run_live : Answers → String → List Dispatch → S → Ended S
  unfolding with_filter read_live
  run_live a filter ds s =
      if a.cap_net_raw
      then (if a.opened
          then with_filter a filter s (opening ∷ []) (read_live a ds s)
          else record { ending = thrown cannot_open; state = s; handle = false; calls = [] })
      else record { ending = thrown no_capability; state = s; handle = false; calls = [] }

unfoldable pub describe_file : String → String
describe_file path = "pcap-file:" ++ path

unfoldable pub describe_live : String → String
describe_live iface = "live-iface:" ++ iface
