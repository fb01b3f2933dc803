-- ===== src/Packets/Decoder/Layers.antt =====
-- Each layer of src/packets/packet_decoder.cpp reads back its part of a frame's layout.
use packetpipe.Common.{
  ℕ, suc, ◌+◌, ◌*◌, ◌/◌, ◌%◌, ◌≤◌, ◌<◌, ◌≡◌, refl, ap, ◌∙◌, Option, none, some, List, [], ◌∷◌, ◌++◌,
  arith, length, length-drop, length-append, drop,
}
use packetpipe.Common.Bits.{bit_and_one, bit_and_four, bit_or_shifted}
use packetpipe.Packets.{ParsedPacket}
use packetpipe.Packets.Outcome.{ok, reject_if}
use packetpipe.Packets.Decoder.Cursor.{skip, read_here, read16_here, read_bytes_here, pass}
use packetpipe.Packets.Decoder.Frame.{
  Segment, tcp, udp, icmp, icmpv6, segment_bytes, protocol_of, IsSegment, Header, ipv4, ipv6,
  Ipv4Header, Ipv6Header, header_bytes, IsHeader, type_bytes, tag_bytes, with_header, with_segment,
  be16,
}
use packetpipe.Packets.Decoder.{
  eth_hdr_len, ether_ipv4, ether_ipv6, type_and_code, link_layer, ipv4_layer, ipv6_layer,
  network_layer, tcp_layer, udp_layer, icmp_layer, transport_layer,
}

type_and_code_lem : (hi lo : ℕ) → hi < 256 → lo < 256 → type_and_code hi lo ≡ hi * 256 + lo
unfolding type_and_code
type_and_code_lem hi lo p q = omega (arith, bit_or_shifted 8 hi lo q)

word : (w : ℕ) → w / 256 * 256 + w % 256 ≡ w
word w = omega arith

abbrev pub ethertype_of : Header → ℕ
ethertype_of (ipv4 h) = ether_ipv4
ethertype_of (ipv6 h) = ether_ipv6

abbrev pub offset_of : Option (ℕ × ℕ) → ℕ
offset_of none = 14
offset_of (some t) = 18

pub header_offset : (tag : Option (ℕ × ℕ)) → eth_hdr_len ≤ offset_of tag
header_offset none = omega arith
header_offset (some t) = omega arith

abbrev pub header_len : Header → ℕ
header_len (ipv4 h) = h.ihl * 4
header_len (ipv6 h) = 40

module _ (buf : List ℕ) where
  -- The captured frame covers what stands at an offset.
  pub room : (i : ℕ) (x : ℕ) (xs : List ℕ) → drop i buf ≡ x ∷ xs → i + suc (length xs) ≤ length buf
  room i x xs h = omega (arith, length-drop i buf, ap length h)

  pub link_layer_frame :
      (tag : Option (ℕ × ℕ)) (h : Header) (x : ℕ) (rest : List ℕ)
      → drop 12 buf ≡ tag_bytes tag (type_bytes h (x ∷ rest))
      → (link_layer buf (length buf) ≡ ok (ethertype_of h, offset_of tag))
        × (drop (offset_of tag) buf ≡ x ∷ rest)
  unfolding link_layer
  link_layer_frame none (ipv4 h) x rest e =
      (rw (read16_here buf 12 _ _ _ e), skip buf 12 14 (0x08 ∷ 0x00 ∷ []) (x ∷ rest) e refl)
  link_layer_frame none (ipv6 h) x rest e =
      (rw (read16_here buf 12 _ _ _ e), skip buf 12 14 (0x86 ∷ 0xdd ∷ []) (x ∷ rest) e refl)
  link_layer_frame (some (hi, lo)) (ipv4 h) x rest e =
      let e' = skip buf 12 16 (0x81 ∷ 0x00 ∷ hi ∷ lo ∷ []) (0x08 ∷ 0x00 ∷ x ∷ rest) e refl in
      let fits = room 16 _ _ e' in
      (
        rw (read16_here buf 12 _ _ _ e)
            (pass (length buf) 18 _ (omega arith) ∙ rw (read16_here buf 16 _ _ _ e')),
        skip buf 16 18 (0x08 ∷ 0x00 ∷ []) (x ∷ rest) e' refl,
      )
  link_layer_frame (some (hi, lo)) (ipv6 h) x rest e =
      let e' = skip buf 12 16 (0x81 ∷ 0x00 ∷ hi ∷ lo ∷ []) (0x86 ∷ 0xdd ∷ x ∷ rest) e refl in
      let fits = room 16 _ _ e' in
      (
        rw (read16_here buf 12 _ _ _ e)
            (pass (length buf) 18 _ (omega arith) ∙ rw (read16_here buf 16 _ _ _ e')),
        skip buf 16 18 (0x86 ∷ 0xdd ∷ []) (x ∷ rest) e' refl,
      )

  ipv4_layer_frame :
      (i : ℕ) (h : Ipv4Header) (protocol x : ℕ) (rest : List ℕ) (pkt : ParsedPacket)
      → IsHeader (ipv4 h)
      → drop i buf ≡ header_bytes (ipv4 h) protocol (x ∷ rest)
      → (ipv4_layer buf (length buf) i pkt ≡ ok (with_header (ipv4 h) protocol pkt, i + h.ihl * 4))
        × (drop (i + h.ihl * 4) buf ≡ x ∷ rest)
  unfolding ipv4_layer reject_if
  ipv4_layer_frame i h protocol x rest pkt v e = (
    ground (
      arith,
      fits,
      word h.total_length,
      read_here buf i _ _ e,
      read16_here buf (i + 2) _ _ _ at2,
      read_here buf (i + 9) _ _ at9,
      read_bytes_here buf h.source (i + 12) 4 _ at12 v.4,
      read_bytes_here buf h.target (i + 16) 4 _ at16 v.5,
    ),
    behind,
  )
    where
      at2 :
          drop (i + 2) buf
          ≡ be16 h.total_length (
              h.ident
              ++ protocol ∷ (h.checksum ++ (h.source ++ (h.target ++ (h.options ++ x ∷ rest)))))
      at2 = skip buf i (i + 2) ((64 + h.ihl) ∷ h.tos ∷ []) _ e refl

      at9 :
          drop (i + 9) buf
          ≡ protocol ∷ (h.checksum ++ (h.source ++ (h.target ++ (h.options ++ x ∷ rest))))
      at9 = skip buf (i + 2) (i + 9) (be16 h.total_length h.ident) _ at2 (omega arith)

      at12 : drop (i + 12) buf ≡ h.source ++ (h.target ++ (h.options ++ x ∷ rest))
      at12 = skip buf (i + 9) (i + 12) (protocol ∷ h.checksum) _ at9 (omega arith)

      at16 : drop (i + 16) buf ≡ h.target ++ (h.options ++ x ∷ rest)
      at16 = skip buf (i + 12) (i + 16) h.source _ at12 (omega arith)

      behind : drop (i + h.ihl * 4) buf ≡ x ∷ rest
      behind =
          skip buf (i + 20) (i + h.ihl * 4) h.options (x ∷ rest)
            (skip buf (i + 16) (i + 20) h.target _ at16 (omega arith)) (omega arith)

      fits : i + h.ihl * 4 + suc (length rest) ≤ length buf
      fits = room (i + h.ihl * 4) x rest behind

  ipv6_layer_frame :
      (i : ℕ) (h : Ipv6Header) (protocol x : ℕ) (rest : List ℕ) (pkt : ParsedPacket)
      → IsHeader (ipv6 h)
      → drop i buf ≡ header_bytes (ipv6 h) protocol (x ∷ rest)
      → (ipv6_layer buf (length buf) i pkt ≡ ok (with_header (ipv6 h) protocol pkt, i + 40))
        × (drop (i + 40) buf ≡ x ∷ rest)
  unfolding ipv6_layer reject_if
  ipv6_layer_frame i h protocol x rest pkt v e = (
    ground (
      arith,
      fits,
      word h.payload_length,
      read_here buf i _ _ e,
      read16_here buf (i + 4) _ _ _ at4,
      read_here buf (i + 6) _ _ at6,
      read_bytes_here buf h.source (i + 8) 16 _ at8 v.2,
      read_bytes_here buf h.target (i + 24) 16 _ at24 v.3,
    ),
    behind,
  )
    where
      at4 :
          drop (i + 4) buf
          ≡ be16 h.payload_length (protocol ∷ h.hops ∷ (h.source ++ (h.target ++ x ∷ rest)))
      at4 = skip buf i (i + 4) ((96 + h.class) ∷ h.flow_label) _ e (omega arith)

      at6 : drop (i + 6) buf ≡ protocol ∷ h.hops ∷ (h.source ++ (h.target ++ x ∷ rest))
      at6 = skip buf (i + 4) (i + 6) (be16 h.payload_length []) _ at4 (omega arith)

      at8 : drop (i + 8) buf ≡ h.source ++ (h.target ++ x ∷ rest)
      at8 = skip buf (i + 6) (i + 8) (protocol ∷ h.hops ∷ []) _ at6 (omega arith)

      at24 : drop (i + 24) buf ≡ h.target ++ x ∷ rest
      at24 = skip buf (i + 8) (i + 24) h.source _ at8 (omega arith)

      behind : drop (i + 40) buf ≡ x ∷ rest
      behind = skip buf (i + 24) (i + 40) h.target (x ∷ rest) at24 (omega arith)

      fits : i + 40 + suc (length rest) ≤ length buf
      fits = room (i + 40) x rest behind

  pub network_layer_frame :
      (i : ℕ) (h : Header) (protocol x : ℕ) (rest : List ℕ) (pkt : ParsedPacket)
      → IsHeader h
      → drop i buf ≡ header_bytes h protocol (x ∷ rest)
      → (network_layer buf (length buf) (ethertype_of h) i pkt
          ≡ ok (with_header h protocol pkt, i + header_len h))
        × (drop (i + header_len h) buf ≡ x ∷ rest)
  unfolding network_layer
  network_layer_frame i (ipv4 h) protocol x rest pkt v e =
      ipv4_layer_frame i h protocol x rest pkt v e
  network_layer_frame i (ipv6 h) protocol x rest pkt v e =
      ipv6_layer_frame i h protocol x rest pkt v e

  pub transport_layer_frame :
      (i : ℕ) (s : Segment) (pkt : ParsedPacket)
      → IsSegment s
      → pkt.protocol ≡ protocol_of s
      → drop i buf ≡ segment_bytes s
      → transport_layer buf (length buf) i pkt ≡ ok (with_segment s pkt)
  unfolding transport_layer tcp_layer udp_layer icmp_layer reject_if
  transport_layer_frame i (tcp sport dport middle flags rest) pkt v k e = ground (
    arith,
    room i _ _ e,
    length-append middle (flags ∷ rest),
    word sport,
    word dport,
    bit_and_one flags,
    bit_and_four flags,
    read16_here buf i _ _ _ e,
    read16_here buf (i + 2) _ _ _ at2,
    read_here buf (i + 13) _ _ (skip buf (i + 2) (i + 13) (be16 dport middle) _ at2 (omega arith)),
  )
    where
      at2 : drop (i + 2) buf ≡ be16 dport (middle ++ flags ∷ rest)
      at2 = skip buf i (i + 2) (be16 sport []) _ e refl
  transport_layer_frame i (udp sport dport rest) pkt v k e = ground (
    arith,
    room i _ _ e,
    word sport,
    word dport,
    read16_here buf i _ _ _ e,
    read16_here buf (i + 2) _ _ _ (skip buf i (i + 2) (be16 sport []) _ e refl),
  )
  transport_layer_frame i (icmp type code rest) pkt v k e = ground (
    arith,
    room i _ _ e,
    read_here buf i _ _ e,
    read_here buf (i + 1) _ _ (skip buf i (i + 1) (type ∷ []) (code ∷ rest) e refl),
    type_and_code_lem type code v.0 v.1,
  )
  transport_layer_frame i (icmpv6 type code rest) pkt v k e = ground (
    arith,
    room i _ _ e,
    read_here buf i _ _ e,
    read_here buf (i + 1) _ _ (skip buf i (i + 1) (type ∷ []) (code ∷ rest) e refl),
    type_and_code_lem type code v.0 v.1,
  )
