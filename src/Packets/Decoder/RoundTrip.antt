-- ===== src/Packets/Decoder/RoundTrip.antt =====
-- Decoding by src/packets/packet_decoder.cpp undoes the layout of a frame.
use packetpipe.Common.{ℕ, ◌+◌, ◌≡◌, refl, ap, sym, ◌∙◌, some, List, ◌∷◌, arith, length, drop}
use packetpipe.Packets.{ParsedPacket, blank_packet}
use packetpipe.Packets.Outcome.{ok}
use packetpipe.Packets.Decoder.Cursor.{skip, pass}
use packetpipe.Packets.Decoder.Frame.{
  Segment, tcp, udp, icmp, icmpv6, segment_bytes, protocol_of, Header, ipv4, ipv6, header_bytes,
  Frame, type_bytes, tag_bytes, frame_bytes, IsFrame, with_header, with_segment,
}
use packetpipe.Packets.Decoder.{Timeval, timestamp, eth_hdr_len, decode_frame, decode}
use packetpipe.Packets.Decoder.Layers.{
  offset_of, header_offset, header_len, room, link_layer_frame, network_layer_frame,
  transport_layer_frame,
}

-- A segment is not empty.
segment_head : (s : Segment) → (x : ℕ) × (xs : List ℕ) × (segment_bytes s ≡ x ∷ xs)
segment_head (tcp sport dport middle flags rest) = (_, _, refl)
segment_head (udp sport dport rest) = (_, _, refl)
segment_head (icmp type code rest) = (_, _, refl)
segment_head (icmpv6 type code rest) = (_, _, refl)

header_head :
    (h : Header) (protocol : ℕ) (rest : List ℕ)
    → (x : ℕ) × (xs : List ℕ) × (header_bytes h protocol rest ≡ x ∷ xs)
header_head (ipv4 h) protocol rest = (_, _, refl)
header_head (ipv6 h) protocol rest = (_, _, refl)

protocol-with_header :
    (h : Header) (p : ℕ) (pkt : ParsedPacket) → (with_header h p pkt).protocol ≡ p
protocol-with_header (ipv4 h) p pkt = refl
protocol-with_header (ipv6 h) p pkt = refl

module _ (buf : List ℕ) (f : Frame) (v : IsFrame f) (ts : Timeval) where
  open f use {tag, header, segment}

  decode_frame_at :
      drop 12 buf
        ≡ tag_bytes tag
            (type_bytes header (header_bytes header (protocol_of segment) (segment_bytes segment)))
      → decode_frame buf (length buf) ts
        ≡ ok (
            with_segment segment (
              with_header header
                (protocol_of segment)
                (record blank_packet { timestamp_us = timestamp ts })))
  unfolding decode_frame
  decode_frame_at e =
      let (x, xs, hx) = header_head header (protocol_of segment) (segment_bytes segment) in
      let (y, ys, hy) = segment_head segment in
      let link =
        link_layer_frame buf tag header x xs
          (e ∙ ap (λ r. tag_bytes tag (type_bytes header r)) hx) in
      let pkt = record blank_packet { timestamp_us = timestamp ts } in
      let net =
        network_layer_frame buf (offset_of tag) header (protocol_of segment) y ys pkt v.header
          (link.1 ∙ sym hx ∙ ap (header_bytes header (protocol_of segment)) hy) in
      let transport =
        transport_layer_frame buf (offset_of tag + header_len header) segment
          (with_header header (protocol_of segment) pkt) v.segment
          (protocol-with_header header (protocol_of segment) pkt) (net.1 ∙ sym hy) in
      pass (length buf) eth_hdr_len _
        (omega (arith, header_offset tag, room buf (offset_of tag) x xs link.1))
      ∙ rw (link.0, net.0) transport

-- Decoding the bytes of any frame, tagged or not, IPv4 with any options or IPv6, TCP, UDP, ICMP or
-- ICMPv6, whose headers are complete, gives a packet with exactly the frame's addresses, ports (or
-- ICMP type and code), protocol, IP length and FIN and RST flags, and the capture's time.
pub decode-frame_bytes :
    (f : Frame) (ts : Timeval)
    → IsFrame f
    → decode (some (frame_bytes f)) (length (frame_bytes f)) ts
      ≡ ok (
          with_segment f.segment (
            with_header f.header
              (protocol_of f.segment)
              (record blank_packet { timestamp_us = timestamp ts })))
unfolding decode
decode-frame_bytes f ts v =
    decode_frame_at (frame_bytes f) f v ts
      (skip (frame_bytes f) 0 12 f.macs _ refl (omega (arith, v.macs)))
