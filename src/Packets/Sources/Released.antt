-- ===== src/Packets/Sources/Released.antt =====
-- What the sources of src/packets acquire from libpcap, they release.
use Prim.Native.String.{String}
use packetpipe.Common.{
  ℕ, suc, ◌+◌, ◌≡◌, refl, Bool, true, false, Bool-cases, inl, inr, Option, List, [], ◌∷◌, arith,
  if◌then◌else◌,
}
use packetpipe.Config.Parser.{is_empty}
use packetpipe.Metrics.{Metrics}
use packetpipe.Packets.{ParsedPacket}
use packetpipe.Packets.Outcome.{ok, reject, fault}
use packetpipe.Packets.Sources.{
  CapturedFrame, Answers, Dispatch, DispatchEnd, count, broken, failed, Ending, finished, faulted,
  thrown, cannot_open, no_capability, still_blocking, PcapCall, opening, closing, compiling,
  freeing, Ended, handle_all, close, leave, with_filter, read_file, run_file, after_dispatch,
  dispatch_loop, read_live, run_live, destroy,
}

abbrev pub openings : List PcapCall → ℕ
openings [] = 0
openings (opening ∷ cs) = suc (openings cs)
openings (closing ∷ cs) = openings cs
openings (compiling ∷ cs) = openings cs
openings (freeing ∷ cs) = openings cs

abbrev pub closings : List PcapCall → ℕ
closings [] = 0
closings (opening ∷ cs) = closings cs
closings (closing ∷ cs) = suc (closings cs)
closings (compiling ∷ cs) = closings cs
closings (freeing ∷ cs) = closings cs

abbrev pub compilings : List PcapCall → ℕ
compilings [] = 0
compilings (opening ∷ cs) = compilings cs
compilings (closing ∷ cs) = compilings cs
compilings (compiling ∷ cs) = suc (compilings cs)
compilings (freeing ∷ cs) = compilings cs

abbrev pub freeings : List PcapCall → ℕ
freeings [] = 0
freeings (opening ∷ cs) = freeings cs
freeings (closing ∷ cs) = freeings cs
freeings (compiling ∷ cs) = freeings cs
freeings (freeing ∷ cs) = suc (freeings cs)

abbrev pub held : Bool → ℕ
held true = 1
held false = 0

-- Each handle that was opened was closed or is held, and each filter that was compiled was freed.
pub record IsReleased {S : Type 0} (e : Ended S) : Type 0 where
  pub handles : openings e.calls ≡ closings e.calls + held e.handle
  pub filters : compilings e.calls ≡ freeings e.calls

-- Nothing is held, and nothing was released twice.
pub record IsBalanced {S : Type 0} (e : Ended S) : Type 0 where
  pub null : e.handle ≡ false
  pub handles : openings e.calls ≡ closings e.calls
  pub filters : compilings e.calls ≡ freeings e.calls

-- The calls so far hold one handle and no filter.
pub record HoldsOne (calls : List PcapCall) : Type 0 where
  pub handles : openings calls ≡ closings calls + 1
  pub filters : compilings calls ≡ freeings calls

module _ {S : Type 0} where
  pub close-IsReleased :
      (e : Ending) (s : S) (calls : List PcapCall) → HoldsOne calls → IsReleased (close e s calls)
  unfolding close
  close-IsReleased e s calls h = record { handles = omega (arith, h.handles); filters = h.filters }

  pub leave-IsReleased :
      (e : Ending) (s : S) (calls : List PcapCall) → HoldsOne calls → IsReleased (leave e s calls)
  unfolding leave
  leave-IsReleased e s calls h = record { handles = h.handles; filters = h.filters }

  if-IsReleased :
      (b : Bool) {e e' : Ended S} → IsReleased e → IsReleased e' → IsReleased (if b then e else e')
  if-IsReleased true h h' = h
  if-IsReleased false h h' = h'

  with_filter-IsReleased :
      (a : Answers) (filter : String) (s : S) (next : List PcapCall → Ended S)
      → ((calls : List PcapCall) → HoldsOne calls → IsReleased (next calls))
      → IsReleased (with_filter a filter s (opening ∷ []) next)
  unfolding with_filter
  with_filter-IsReleased a filter s next h =
      let opened_only : HoldsOne (opening ∷ []) = record {
        handles = omega arith;
        filters = refl;
      } in
      let freed : HoldsOne (freeing ∷ compiling ∷ opening ∷ []) = record {
        handles = omega arith;
        filters = refl;
      } in
      if-IsReleased (is_empty filter) (h _ opened_only) (
        if-IsReleased a.compiled
          (if-IsReleased a.filter_set (h _ freed) (close-IsReleased _ s _ freed))
          (close-IsReleased _ s _ opened_only))

  never_opened :
      (e : Ending) (s : S)
      → IsReleased (record { ending = e; state = s; handle = false; calls = [] })
  never_opened e s = record { handles = omega arith; filters = refl }

  after_dispatch-IsReleased :
      (r : DispatchEnd) (s : S) (calls : List PcapCall) (rest : Ended S)
      → HoldsOne calls
      → IsReleased rest
      → IsReleased (after_dispatch r s calls rest)
  unfolding after_dispatch
  after_dispatch-IsReleased count s calls rest h k = k
  after_dispatch-IsReleased broken s calls rest h k = close-IsReleased finished s calls h
  after_dispatch-IsReleased failed s calls rest h k = leave-IsReleased _ s calls h

  -- Behind the destructor nothing is held.
  destroy_lem : (e : Ended S) → IsReleased e → IsBalanced (destroy e)
  unfolding destroy
  destroy_lem e h = elim (Bool-cases e.handle) [
    | inl b ↦ ground (arith, h.handles, h.filters, b)
    | inr b ↦ ground (arith, h.handles, h.filters, b)
  ]

module _ {S : Type 0} (callback : ParsedPacket → S → S)
    (registry : Option ((Metrics → Metrics) → S → S)) where
  read_file-IsReleased :
      (fs : List CapturedFrame) (s : S) (calls : List PcapCall)
      → HoldsOne calls
      → IsReleased (read_file callback registry fs s calls)
  unfolding read_file
  read_file-IsReleased fs s calls h =
      elim (handle_all callback registry fs s)
        as (λ r. IsReleased (elim r [
          | ok s' ↦ close finished s' calls
          | reject ↦ leave faulted s calls
          | fault ↦ leave faulted s calls
        ])) [
          | ok s' ↦ close-IsReleased finished s' calls h
          | reject ↦ leave-IsReleased faulted s calls h
          | fault ↦ leave-IsReleased faulted s calls h
        ]

  dispatch_loop-IsReleased :
      (ds : List Dispatch) (s : S) (calls : List PcapCall)
      → HoldsOne calls
      → IsReleased (dispatch_loop callback registry ds s calls)
  unfolding dispatch_loop
  dispatch_loop-IsReleased [] s calls h = leave-IsReleased _ s calls h
  dispatch_loop-IsReleased (d ∷ ds) s calls h =
      elim (handle_all callback registry d.frames s)
        as (λ r. IsReleased (elim r [
          | ok s' ↦ after_dispatch d.result s' calls (dispatch_loop callback registry ds s' calls)
          | reject ↦ leave faulted s calls
          | fault ↦ leave faulted s calls
        ])) [
          | ok s' ↦
              after_dispatch-IsReleased d.result s' calls _ h
                (dispatch_loop-IsReleased ds s' calls h)
          | reject ↦ leave-IsReleased faulted s calls h
          | fault ↦ leave-IsReleased faulted s calls h
        ]

  run_file-IsReleased :
      (a : Answers) (filter : String) (fs : List CapturedFrame) (s : S)
      → IsReleased (run_file callback registry a filter fs s)
  unfolding run_file
  run_file-IsReleased a filter fs s =
      if-IsReleased a.opened
        (with_filter-IsReleased a filter s _ λ calls h. read_file-IsReleased fs s calls h)
        (never_opened (thrown cannot_open) s)

  run_live-IsReleased :
      (a : Answers) (filter : String) (ds : List Dispatch) (s : S)
      → IsReleased (run_live callback registry a filter ds s)
  unfolding run_live read_live
  run_live-IsReleased a filter ds s =
      if-IsReleased a.cap_net_raw
        (if-IsReleased a.opened
          (with_filter-IsReleased a filter s (read_live callback registry a ds s) λ calls h.
            if-IsReleased a.nonblocking (dispatch_loop-IsReleased ds s calls h)
              (leave-IsReleased (thrown still_blocking) s calls h))
          (never_opened (thrown cannot_open) s))
        (never_opened (thrown no_capability) s)

  -- However the calls of libpcap answer, and whatever frames arrive: when either kind of source has
  -- been run once and destroyed, its handle is null, every handle that was opened was closed exactly
  -- once and every filter that was compiled was freed exactly once.
  pub destroy-IsBalanced :
      (a : Answers) (filter : String) (fs : List CapturedFrame) (ds : List Dispatch) (s : S)
      → IsBalanced (destroy (run_file callback registry a filter fs s))
        × IsBalanced (destroy (run_live callback registry a filter ds s))
  destroy-IsBalanced a filter fs ds s = (
    destroy_lem _ (run_file-IsReleased a filter fs s),
    destroy_lem _ (run_live-IsReleased a filter ds s),
  )
