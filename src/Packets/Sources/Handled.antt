-- ===== src/Packets/Sources/Handled.antt =====
-- How the sources of src/packets hand on what they capture.
use Prim.Native.String.{String}
use packetpipe.Common.{
  ℕ, ◌+◌, ◌≤◌, ◌≡◌, ◌≢◌, refl, ap, subst, ◌∙◌, inl, inr, Bool-cases, true, Option, some, List, [],
  ◌∷◌, ◌++◌, All, length, arith,
}
use packetpipe.Config.Parser.{is_empty}
use packetpipe.Metrics.{Metrics}
use packetpipe.Packets.{ParsedPacket}
use packetpipe.Packets.Outcome.{Outcome, ok, reject, fault, ◌>>=◌}
use packetpipe.Packets.Decoder.{decode}
use packetpipe.Packets.Decoder.Safety.{decode-IsPacket}
use packetpipe.Packets.Decoder.Shape.{IsByte, IsPacket}
use packetpipe.Packets.Sources.{
  CapturedFrame, PcapCall, Answers, finished, count_drop, handle_decoded, pcap_handler, handle_all,
  close, with_filter, read_file, run_file,
}

-- The captured bytes are bytes and are all there.
abbrev pub IsCaptured : CapturedFrame → Type 0
IsCaptured f = All IsByte f.bytes × (f.caplen ≤ length f.bytes)

abbrev pub packets_in : Outcome ParsedPacket → ℕ
packets_in (ok pkt) = 1
packets_in reject = 0
packets_in fault = 0

abbrev pub rejects_in : Outcome ParsedPacket → ℕ
rejects_in (ok pkt) = 0
rejects_in reject = 1
rejects_in fault = 0

-- The frames that hold a packet that the decoder knows, and those that hold none.
abbrev pub decodable : List CapturedFrame → ℕ
decodable [] = 0
decodable (f ∷ fs) = packets_in (decode (some f.bytes) f.caplen f.ts) + decodable fs

abbrev pub undecodable : List CapturedFrame → ℕ
undecodable [] = 0
undecodable (f ∷ fs) = rejects_in (decode (some f.bytes) f.caplen f.ts) + undecodable fs

pub decodable-append :
    (fs gs : List CapturedFrame) → decodable (fs ++ gs) ≡ decodable fs + decodable gs
decodable-append [] gs = omega arith
decodable-append (f ∷ fs) gs = omega (arith, decodable-append fs gs)

pub undecodable-append :
    (fs gs : List CapturedFrame) → undecodable (fs ++ gs) ≡ undecodable fs + undecodable gs
undecodable-append [] gs = omega arith
undecodable-append (f ∷ fs) gs = omega (arith, undecodable-append fs gs)

pub All-append_inv :
    (fs gs : List CapturedFrame) → All IsCaptured (fs ++ gs) → All IsCaptured fs × All IsCaptured gs
All-append_inv [] gs h = (tt, h)
All-append_inv (f ∷ fs) gs h = let (hf, hg) = All-append_inv fs gs h.1 in ((h.0, hf), hg)

module _ {S : Type 0} (callback : ParsedPacket → S → S)
    (registry : Option ((Metrics → Metrics) → S → S)) (P : ℕ → ℕ → S → Type 0) where
  -- What the callback keeps with one packet more, and a drop with one frame more that held none.
  pub record Counts : Type 0 where
    pub calls_back :
        (a b : ℕ) (pkt : ParsedPacket) (s : S)
        → IsPacket pkt
        → P a b s
        → P (1 + a) b (callback pkt s)
    pub drops : (a b : ℕ) (s : S) → P a b s → P a (1 + b) (count_drop registry s)

module _ {S : Type 0} (callback : ParsedPacket → S → S)
    (registry : Option ((Metrics → Metrics) → S → S)) (P : ℕ → ℕ → S → Type 0)
    (k : Counts callback registry P) where
  abbrev pub Ends : Outcome S → ℕ → ℕ → Type 0
  Ends r a b = (s' : S) × (r ≡ ok s') × P a b s'

  recast : (a b a' b' : ℕ) (s : S) → a ≡ a' → b ≡ b' → P a b s → P a' b' s
  recast a b a' b' s e e' h = subst (λ c. P a' c s) e' (subst (λ c. P c b s) e h)

  pub handle_decoded-Counts :
      (r : Outcome ParsedPacket) (a b : ℕ) (s : S)
      → r ≢ fault
      → ((pkt : ParsedPacket) → r ≡ ok pkt → IsPacket pkt)
      → P a b s
      → Ends (handle_decoded callback registry r s) (packets_in r + a) (rejects_in r + b)
  unfolding handle_decoded
  handle_decoded-Counts (ok pkt) a b s nf is h = (
    callback pkt s,
    refl,
    recast (1 + a) b (1 + a) (0 + b) _ refl (omega arith) (k.calls_back a b pkt s (is pkt refl) h),
  )
  handle_decoded-Counts reject a b s nf is h = (
    count_drop registry s,
    refl,
    recast a (1 + b) (0 + a) (1 + b) _ (omega arith) refl (k.drops a b s h),
  )
  handle_decoded-Counts fault a b s nf is h = absurd (nf refl)

  handle_all-Counts :
      (fs : List CapturedFrame) (a b : ℕ) (s : S)
      → All IsCaptured fs
      → P a b s
      → Ends (handle_all callback registry fs s) (decodable fs + a) (undecodable fs + b)
  unfolding handle_all pcap_handler
  handle_all-Counts [] a b s w h =
      (s, refl, recast a b (0 + a) (0 + b) s (omega arith) (omega arith) h)
  handle_all-Counts (f ∷ fs) a b s w h =
      let (nf, is) = decode-IsPacket f.bytes f.caplen f.ts w.0.0 w.0.1 in
      let (s', e, h') = handle_decoded-Counts (decode (some f.bytes) f.caplen f.ts) a b s nf is h in
      let (s'', e', h'') =
        handle_all-Counts fs (packets_in (decode (some f.bytes) f.caplen f.ts) + a)
          (rejects_in (decode (some f.bytes) f.caplen f.ts) + b) s' w.1 h' in
      (
        s'',
        ap (λ r. r >>= λ s'. handle_all callback registry fs s') e ∙ e',
        recast _ _ (decodable (f ∷ fs) + a) (undecodable (f ∷ fs) + b) s'' (omega arith)
            (omega arith) h'',
      )

  read_file-Counts :
      (fs : List CapturedFrame) (s : S) (calls : List PcapCall)
      → All IsCaptured fs
      → P 0 0 s
      → let e = read_file callback registry fs s calls in
        (e.ending ≡ finished) × P (decodable fs) (undecodable fs) e.state
  unfolding read_file close
  read_file-Counts fs s calls w h =
      let (s', e, h') = handle_all-Counts fs 0 0 s w h in
      rw (read_file, e)
        (refl, recast _ _ (decodable fs) (undecodable fs) s' (omega arith) (omega arith) h')

  -- If libpcap opens the file and takes the filter, and the frames that `pcap_loop` hands over before it
  -- returns, for whatever reason, are whole: `run` returns without an exception and without a read
  -- outside a frame, and each of these frames is counted: what the callback keeps with each packet,
  -- and a drop with each frame that holds none, holds at the end with the numbers of the two kinds
  -- of frames.
  pub run_file-Counts :
      (a : Answers) (filter : String) (fs : List CapturedFrame) (s : S)
      → a.opened ≡ true
      → a.compiled ≡ true
      → a.filter_set ≡ true
      → All IsCaptured fs
      → P 0 0 s
      → let e = run_file callback registry a filter fs s in
        (e.ending ≡ finished) × P (decodable fs) (undecodable fs) e.state
  unfolding run_file with_filter
  run_file-Counts a filter fs s o c t w h = rw o (
      rw c (
        rw t (elim (Bool-cases (is_empty filter)) [
          | inl e ↦ rw e (read_file-Counts fs s _ w h)
          | inr e ↦ rw e (read_file-Counts fs s _ w h)
        ])))
