-- ===== src/Packets/Decoder/Longer.antt =====
-- What src/packets/packet_decoder.cpp returns does not depend on what follows the headers.
use packetpipe.Common.{
  ℕ, zero, suc, ◌+◌, ◌≤◌, ◌≡◌, refl, Bool, true, false, some, List, [], ◌∷◌, ◌++◌, arith, ltb, ◌==◌,
  if◌then◌else◌,
}
use packetpipe.Packets.{ParsedPacket}
use packetpipe.Packets.Outcome.{Outcome, ok, ◌>>◌, reject_if, Extends, Extends-bind}
use packetpipe.Packets.Decoder.{
  Timeval, eth_hdr_len, ether_ipv4, ether_ipv6, ether_vlan, ipproto_icmp, ipproto_tcp, ipproto_udp,
  ipproto_icmpv6, read, read16, read_bytes, link_layer, ipv4_layer, ipv6_layer, network_layer,
  tcp_layer, udp_layer, icmp_layer, transport_layer, decode_frame, decode,
}

Extends-refl : {A : Type 0} (m : Outcome A) → Extends m m
Extends-refl m a e = e

Extends-guard :
    {A : Type 0} (b c : Bool) (m n : Outcome A)
    → (b ≡ false → c ≡ false)
    → Extends m n
    → Extends (reject_if b >> m) (reject_if c >> n)
unfolding reject_if
Extends-guard true c m n h k a e = ground arith
Extends-guard false c m n h k a e = rw (h refl) (k a e)

Extends-if :
    {A : Type 0} (b : Bool) (m n m' n' : Outcome A)
    → Extends m m'
    → Extends n n'
    → Extends (if b then m else n) (if b then m' else n')
Extends-if true m n m' n' p q = p
Extends-if false m n m' n' p q = q

ltb_mono : (len len' n : ℕ) → len ≤ len' → ltb len n ≡ false → ltb len' n ≡ false
ltb_mono len len' n h e = ground arith

module _ (buf more : List ℕ) (len len' : ℕ) (longer : len ≤ len') where
  Extends-read_from : (xs : List ℕ) (i : ℕ) → Extends (read xs i) (read (xs ++ more) i)
  unfolding read
  Extends-read_from [] i a e = ground arith
  Extends-read_from (x ∷ xs) zero a e = e
  Extends-read_from (x ∷ xs) (suc i) a e = Extends-read_from xs i a e

  Extends-read : (i : ℕ) → Extends (read buf i) (read (buf ++ more) i)
  Extends-read i = Extends-read_from buf i

  Extends-read16 : (i : ℕ) → Extends (read16 buf i) (read16 (buf ++ more) i)
  unfolding read16
  Extends-read16 i =
      Extends-bind _ _ _ _ (Extends-read i)
        λ hi. Extends-bind _ _ _ _ (Extends-read (i + 1)) λ lo. Extends-refl _

  Extends-read_bytes : (i n : ℕ) → Extends (read_bytes buf i n) (read_bytes (buf ++ more) i n)
  unfolding read_bytes
  Extends-read_bytes i zero = Extends-refl _
  Extends-read_bytes i (suc n) =
      Extends-bind _ _ _ _ (Extends-read i)
        λ b. Extends-bind _ _ _ _ (Extends-read_bytes (i + 1) n) λ bs. Extends-refl _

  Extends-length :
      {A : Type 0} (n : ℕ) (k k' : Outcome A)
      → Extends k k'
      → Extends (reject_if (ltb len n) >> k) (reject_if (ltb len' n) >> k')
  Extends-length n k k' h = Extends-guard _ _ k k' (ltb_mono len len' n longer) h

  Extends-link_layer : Extends (link_layer buf len) (link_layer (buf ++ more) len')
  unfolding link_layer
  Extends-link_layer = Extends-bind _ _ _ _ (Extends-read16 12) λ ethertype.
      Extends-if (ethertype == ether_vlan) _ _ _ _
        (Extends-length (eth_hdr_len + 4) _ _
          (Extends-bind _ _ _ _ (Extends-read16 16) λ inner. Extends-refl _))
        (Extends-refl _)

  Extends-ipv4_layer :
      (offset : ℕ) (pkt : ParsedPacket)
      → Extends (ipv4_layer buf len offset pkt) (ipv4_layer (buf ++ more) len' offset pkt)
  unfolding ipv4_layer
  Extends-ipv4_layer offset pkt = Extends-length (offset + 20) _ _ (
      Extends-bind _ _ _ _ (Extends-read offset) λ first.
        Extends-guard _ _ _ _ (λ e. e)
          (Extends-guard _ _ _ _ (λ e. ground arith)
            (Extends-bind _ _ _ _ (Extends-read_bytes (offset + 12) 4) λ src.
              Extends-bind _ _ _ _ (Extends-read_bytes (offset + 16) 4) λ dst.
                Extends-bind _ _ _ _ (Extends-read (offset + 9)) λ protocol.
                  Extends-bind _ _ _ _ (Extends-read16 (offset + 2)) λ total. Extends-refl _)))

  Extends-ipv6_layer :
      (offset : ℕ) (pkt : ParsedPacket)
      → Extends (ipv6_layer buf len offset pkt) (ipv6_layer (buf ++ more) len' offset pkt)
  unfolding ipv6_layer
  Extends-ipv6_layer offset pkt = Extends-length (offset + 40) _ _ (
      Extends-bind _ _ _ _ (Extends-read offset) λ first.
        Extends-guard _ _ _ _ (λ e. e)
          (Extends-bind _ _ _ _ (Extends-read_bytes (offset + 8) 16) λ src.
            Extends-bind _ _ _ _ (Extends-read_bytes (offset + 24) 16) λ dst.
              Extends-bind _ _ _ _ (Extends-read (offset + 6)) λ protocol.
                Extends-bind _ _ _ _ (Extends-read16 (offset + 4)) λ payload. Extends-refl _))

  Extends-network_layer :
      (ethertype offset : ℕ) (pkt : ParsedPacket)
      → Extends
          (network_layer buf len ethertype offset pkt)
          (network_layer (buf ++ more) len' ethertype offset pkt)
  unfolding network_layer
  Extends-network_layer ethertype offset pkt =
      Extends-if (ethertype == ether_ipv4) _ _ _ _ (Extends-ipv4_layer offset pkt) (
        Extends-if (ethertype == ether_ipv6) _ _ _ _ (Extends-ipv6_layer offset pkt)
          (Extends-refl _))

  Extends-transport_layer :
      (offset : ℕ) (pkt : ParsedPacket)
      → Extends (transport_layer buf len offset pkt) (transport_layer (buf ++ more) len' offset pkt)
  unfolding transport_layer tcp_layer udp_layer icmp_layer
  Extends-transport_layer offset pkt =
      Extends-if (pkt.protocol == ipproto_tcp) _ _ _ _
        (Extends-length (offset + 20) _ _ (
          Extends-bind _ _ _ _ (Extends-read16 offset) λ sport.
            Extends-bind _ _ _ _ (Extends-read16 (offset + 2))
              λ dport. Extends-bind _ _ _ _ (Extends-read (offset + 13)) λ flags. Extends-refl _))
        (Extends-if (pkt.protocol == ipproto_udp) _ _ _ _
          (Extends-length (offset + 8) _ _ (
            Extends-bind _ _ _ _ (Extends-read16 offset)
              λ sport. Extends-bind _ _ _ _ (Extends-read16 (offset + 2)) λ dport. Extends-refl _))
          (Extends-if (pkt.protocol == ipproto_icmp) _ _ _ _ (icmp 8)
            (Extends-if (pkt.protocol == ipproto_icmpv6) _ _ _ _ (icmp 4) (Extends-refl _))))
    where
      icmp :
          (needed : ℕ)
          → Extends
              (icmp_layer needed buf len offset pkt)
              (icmp_layer needed (buf ++ more) len' offset pkt)
      icmp needed = Extends-length (offset + needed) _ _ (
          Extends-bind _ _ _ _ (Extends-read offset)
            λ type. Extends-bind _ _ _ _ (Extends-read (offset + 1)) λ code. Extends-refl _)

  Extends-decode_frame :
      (ts : Timeval) → Extends (decode_frame buf len ts) (decode_frame (buf ++ more) len' ts)
  unfolding decode_frame
  Extends-decode_frame ts = Extends-length eth_hdr_len _ _ (
      Extends-bind _ _ _ _ Extends-link_layer λ link.
        Extends-bind _ _ _ _ (Extends-network_layer link.0 link.1 _)
          λ header. Extends-transport_layer header.1 header.0)

-- A packet that a capture yields, it also yields when more of the frame was captured: neither
-- trailing bytes nor a larger captured length change the result.
pub decode-append :
    (buf more : List ℕ) (len len' : ℕ) (ts : Timeval) (pkt : ParsedPacket)
    → decode (some buf) len ts ≡ ok pkt
    → len ≤ len'
    → decode (some (buf ++ more)) len' ts ≡ ok pkt
unfolding decode
decode-append buf more len len' ts pkt e longer =
    Extends-decode_frame buf more len len' longer ts pkt e
