-- ===== src/Packets/Sources/Stop/Reached.antt =====
-- What `stop()` of the sources of src/packets can do, and what it cannot.
use packetpipe.Common.{◌≡◌, ◌≢◌, refl, sym, ap, subst, ◌∙◌, true, false}
use packetpipe.Packets.Sources.Stop.{
  SourceKind, live, Phase, before, setting, looping, leaving, closed, over, rejected, failed,
  abandoned, destroying, destroyed, Pointer, null, valid, freed, StopAt, idle, tested, Capture,
  constructed, Runs, opens, open_fails, filter_fails, rejects, nonblock_fails, is_set, dispatches,
  dispatch_fails, breaks, ends, closes, nulls, releases, destroys_freed, destroys_over,
  destroys_failed, Stops, finds_null, tests, interrupts, faults, dangles, Reach, Alone,
}

-- What the pointer is, in each phase.
abbrev pub pointer_in : Phase → Pointer
pointer_in before = null
pointer_in setting = valid
pointer_in looping = valid
pointer_in leaving = valid
pointer_in closed = freed
pointer_in over = null
pointer_in rejected = freed
pointer_in failed = null
pointer_in abandoned = valid
pointer_in destroying = freed
pointer_in destroyed = null

-- The handle was opened and is closed, or the source is destroyed.
abbrev pub Closed : Phase → Type 0
Closed before = ⊥
Closed setting = ⊥
Closed looping = ⊥
Closed leaving = ⊥
Closed closed = Unit
Closed over = Unit
Closed rejected = Unit
Closed failed = Unit
Closed abandoned = ⊥
Closed destroying = Unit
Closed destroyed = Unit

record IsOrderly (c : Capture) : Type 0 where
  pointer : c.handle ≡ pointer_in c.phase
  early : c.phase ≡ before → (c.stop ≡ idle) × (c.broken ≡ false)
  late : c.faulted ≡ true → Closed c.phase

-- A phase that has not closed its handle, by an equation.
unharmed : (c : Capture) (p : Phase) → ¬ (Closed p) → c.phase ≡ p → IsOrderly c → c.faulted ≢ true
unharmed c p n e h f = n (subst Closed e (h.late f))

fault_lem :
    (p : Phase) (h : Pointer) (s : StopAt)
    → h ≡ pointer_in p
    → (p ≡ before → s ≡ idle)
    → s ≡ tested
    → h ≢ valid
    → Closed p
fault_lem before h s e i t n = cc (i refl, t)
fault_lem setting h s e i t n = absurd (n e)
fault_lem looping h s e i t n = absurd (n e)
fault_lem leaving h s e i t n = absurd (n e)
fault_lem abandoned h s e i t n = absurd (n e)
fault_lem closed h s e i t n = tt
fault_lem over h s e i t n = tt
fault_lem rejected h s e i t n = tt
fault_lem failed h s e i t n = tt
fault_lem destroying h s e i t n = tt
fault_lem destroyed h s e i t n = tt

early_lem : (p : Phase) (h : Pointer) → h ≡ pointer_in p → h ≢ null → p ≢ before
early_lem p h e n b = n (e ∙ ap pointer_in b)

-- A step from a phase that has not closed its handle to one behind the first.
moves :
    (c d : Capture) (p : Phase)
    → ¬ (Closed p)
    → c.phase ≡ p
    → IsOrderly c
    → d.faulted ≡ c.faulted
    → d.handle ≡ pointer_in d.phase
    → d.phase ≢ before
    → IsOrderly d
moves c d p n e h same at later = record {
  pointer = at;
  early = λ x. absurd (later x);
  late = λ f. absurd (unharmed c p n e h (sym same ∙ f));
}

-- A step to a phase that has closed its handle.
shuts :
    (c d : Capture)
    → d.handle ≡ pointer_in d.phase
    → d.phase ≢ before
    → Closed d.phase
    → IsOrderly d
shuts c d at later shut = record { pointer = at; early = λ x. absurd (later x); late = λ f. shut }

Runs-IsOrderly : {k : SourceKind} {c d : Capture} → Runs k c d → IsOrderly c → IsOrderly d
Runs-IsOrderly {k} {c} {d} (opens e) h = moves c d before (λ x. x) e h refl refl (λ x. cc)
Runs-IsOrderly {k} {c} {d} (open_fails e) h = shuts c d (h.pointer ∙ ap pointer_in e) (λ x. cc) tt
Runs-IsOrderly {k} {c} {d} (filter_fails e) h = shuts c d refl (λ x. cc) tt
Runs-IsOrderly {k} {c} {d} (rejects e) h = shuts c d refl (λ x. cc) tt
Runs-IsOrderly {k} {c} {d} (nonblock_fails f e) h =
    moves c d setting (λ x. x) e h refl (h.pointer ∙ ap pointer_in e) (λ x. cc)
Runs-IsOrderly {k} {c} {d} (is_set e) h =
    moves c d setting (λ x. x) e h refl (h.pointer ∙ ap pointer_in e) (λ x. cc)
Runs-IsOrderly (dispatches e) h = h
Runs-IsOrderly {k} {c} {d} (dispatch_fails f e) h =
    moves c d looping (λ x. x) e h refl (h.pointer ∙ ap pointer_in e) (λ x. cc)
Runs-IsOrderly {k} {c} {d} (breaks e b) h =
    moves c d looping (λ x. x) e h refl (h.pointer ∙ ap pointer_in e) (λ x. cc)
Runs-IsOrderly {k} {c} {d} (ends f e) h =
    moves c d looping (λ x. x) e h refl (h.pointer ∙ ap pointer_in e) (λ x. cc)
Runs-IsOrderly {k} {c} {d} (closes e) h = shuts c d refl (λ x. cc) tt
Runs-IsOrderly {k} {c} {d} (nulls e) h = shuts c d refl (λ x. cc) tt
Runs-IsOrderly {k} {c} {d} (releases e) h = shuts c d refl (λ x. cc) tt
Runs-IsOrderly {k} {c} {d} (destroys_freed e) h = shuts c d refl (λ x. cc) tt
Runs-IsOrderly {k} {c} {d} (destroys_over e) h =
    shuts c d (h.pointer ∙ ap pointer_in e) (λ x. cc) tt
Runs-IsOrderly {k} {c} {d} (destroys_failed e) h =
    shuts c d (h.pointer ∙ ap pointer_in e) (λ x. cc) tt

Stops-IsOrderly : {c d : Capture} → Stops c d → IsOrderly c → IsOrderly d
Stops-IsOrderly (finds_null i n) h = h
Stops-IsOrderly {c} (tests i n) h = record {
  pointer = h.pointer;
  early = λ x. absurd (early_lem c.phase c.handle h.pointer n x);
  late = h.late;
}
Stops-IsOrderly (interrupts i n) h = record {
  pointer = h.pointer;
  early = λ x. cc (i, (h.early x).0);
  late = h.late;
}
Stops-IsOrderly {c} (faults i n) h = record {
  pointer = h.pointer;
  early = λ x. cc (i, (h.early x).0);
  late = λ f. fault_lem c.phase c.handle c.stop h.pointer (λ x. (h.early x).0) i n;
}
Stops-IsOrderly {c} (dangles e) h = record {
  pointer = h.pointer;
  early = λ x. cc (e, x);
  late = λ f. subst Closed (sym e) tt;
}

Reach-IsOrderly : {k : SourceKind} {c : Capture} → Reach k constructed c → IsOrderly c
Reach-IsOrderly Reach.here = record { pointer = refl; early = λ x. (refl, refl); late = λ f. cc }
Reach-IsOrderly (Reach.runs r m) = Runs-IsOrderly m (Reach-IsOrderly r)
Reach-IsOrderly (Reach.stops r m) = Stops-IsOrderly m (Reach-IsOrderly r)

-- A live capture that nobody breaks has not left its loop but by an exception.
abbrev pub Unstopped : Phase → Type 0
Unstopped leaving = ⊥
Unstopped closed = ⊥
Unstopped over = ⊥
Unstopped before = Unit
Unstopped setting = Unit
Unstopped looping = Unit
Unstopped rejected = Unit
Unstopped failed = Unit
Unstopped abandoned = Unit
Unstopped destroying = Unit
Unstopped destroyed = Unit

abbrev pub Endless : Capture → Type 0
Endless c = Unstopped c.phase × (c.broken ≡ false)

Runs-Endless : {c d : Capture} → Runs live c d → Endless c → Endless d
Runs-Endless (opens e) h = (tt, refl)
Runs-Endless (open_fails e) h = (tt, h.1)
Runs-Endless (filter_fails e) h = (tt, h.1)
Runs-Endless (rejects e) h = (tt, h.1)
Runs-Endless (nonblock_fails f e) h = (tt, h.1)
Runs-Endless (is_set e) h = (tt, h.1)
Runs-Endless (dispatches e) h = h
Runs-Endless (dispatch_fails f e) h = (tt, h.1)
Runs-Endless (breaks e b) h = cc (h.1, b)
Runs-Endless (ends f e) h = cc
Runs-Endless (closes e) h = absurd (subst Unstopped e h.0)
Runs-Endless (nulls e) h = absurd (subst Unstopped e h.0)
Runs-Endless (releases e) h = (tt, h.1)
Runs-Endless (destroys_freed e) h = (tt, h.1)
Runs-Endless (destroys_over e) h = absurd (subst Unstopped e h.0)
Runs-Endless (destroys_failed e) h = (tt, h.1)

Alone-Endless : {c d : Capture} → Alone live c d → Endless c → Endless d
Alone-Endless Alone.here h = h
Alone-Endless (Alone.runs a m) h = Runs-Endless m (Alone-Endless a h)

Stops-before : {c d : Capture} → Stops c d → c.phase ≡ before → IsOrderly c → d ≡ c
Stops-before (finds_null i n) p h = refl
Stops-before (tests i n) p h = absurd (n (h.pointer ∙ ap pointer_in p))
Stops-before (interrupts i n) p h = cc (i, (h.early p).0)
Stops-before (faults i n) p h = cc (i, (h.early p).0)
Stops-before (dangles e) p h = cc (e, p)

-- A call of `stop` that comes before the handle is opened changes nothing: a live capture that no later
-- call interrupts stays in its loop until an error of libpcap throws, and never returns.
pub Stops-Endless :
    (c d e : Capture)
    → Reach live constructed c
    → c.phase ≡ before
    → Stops c d
    → Alone live d e
    → (d ≡ c) × Endless e
Stops-Endless c d e r p s a =
    let h = Reach-IsOrderly r in
    let same = Stops-before s p h in
    let still = ap (λ (x : Capture). x.phase) same ∙ p in
    let calm = ap (λ (x : Capture). x.broken) same ∙ (h.early p).1 in
    (same, Alone-Endless a (subst Unstopped (sym still) tt, calm))
