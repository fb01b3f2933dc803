-- ===== src/Packets/Decoder/Frame.antt =====
-- Ethernet frames as the standards lay them out: the independent description that the decoder of
-- src/packets/packet_decoder.cpp is measured against.
use packetpipe.Common.{
  ℕ, ◌+◌, ◌*◌, ◌/◌, ◌%◌, ◌≤◌, ◌<◌, ◌≡◌, true, false, Option, none, some, List, ◌∷◌, ◌++◌, ◌==◌,
  length,
}
use packetpipe.Packets.{ParsedPacket}
use packetpipe.Packets.Decoder.{ipproto_icmp, ipproto_tcp, ipproto_udp, ipproto_icmpv6, ipv4_mapped}

-- A 16-bit field in network byte order.
abbrev pub be16 : ℕ → List ℕ → List ℕ
be16 w rest = w / 256 ∷ w % 256 ∷ rest

-- The fields that the decoder skips are lists of bytes: between the ports and the flags of TCP
-- stand 9 bytes, and the last field of each segment is the rest of its header and the payload.
pub data Segment : Type 0 where
  tcp : ℕ → ℕ → List ℕ → ℕ → List ℕ → Segment
  udp : ℕ → ℕ → List ℕ → Segment
  icmp icmpv6 : ℕ → ℕ → List ℕ → Segment

abbrev pub segment_bytes : Segment → List ℕ
segment_bytes (tcp sport dport middle flags rest) = be16 sport (be16 dport (middle ++ flags ∷ rest))
segment_bytes (udp sport dport rest) = be16 sport (be16 dport rest)
segment_bytes (icmp type code rest) = type ∷ code ∷ rest
segment_bytes (icmpv6 type code rest) = type ∷ code ∷ rest

abbrev pub protocol_of : Segment → ℕ
protocol_of (tcp _ _ _ _ _) = ipproto_tcp
protocol_of (udp _ _ _) = ipproto_udp
protocol_of (icmp _ _ _) = ipproto_icmp
protocol_of (icmpv6 _ _ _) = ipproto_icmpv6

-- A complete header, of 20, 8, 8 and 4 bytes.
abbrev pub IsSegment : Segment → Type 0
IsSegment (tcp _ _ middle _ rest) = (length middle ≡ 9) × (6 ≤ length rest)
IsSegment (udp _ _ rest) = 4 ≤ length rest
IsSegment (icmp type code rest) = (type < 256) × (code < 256) × (6 ≤ length rest)
IsSegment (icmpv6 type code rest) = (type < 256) × (code < 256) × (2 ≤ length rest)

-- IPv4 with its options, and IPv6 with no extension header. `tos`, `ident` (identification, flags,
-- offset and time to live), `checksum`, `class` and `hops` are not read.
pub record Ipv4Header : Type 0 where
  pub ihl : ℕ
  pub tos : ℕ
  pub total_length : ℕ
  pub ident : List ℕ
  pub checksum : List ℕ
  pub source : List ℕ
  pub target : List ℕ
  pub options : List ℕ

pub record Ipv6Header : Type 0 where
  pub class : ℕ
  pub flow_label : List ℕ
  pub payload_length : ℕ
  pub hops : ℕ
  pub source : List ℕ
  pub target : List ℕ

pub data Header : Type 0 where
  ipv4 : Ipv4Header → Header
  ipv6 : Ipv6Header → Header

-- A header with the protocol of what follows, and what follows.
abbrev pub header_bytes : Header → ℕ → List ℕ → List ℕ
header_bytes (ipv4 h) protocol rest =
    (64 + h.ihl)
    ∷ h.tos
    ∷ be16 h.total_length
        (h.ident ++ protocol ∷ (h.checksum ++ (h.source ++ (h.target ++ (h.options ++ rest)))))
header_bytes (ipv6 h) protocol rest =
    (96 + h.class)
    ∷ (h.flow_label ++ be16 h.payload_length (protocol ∷ h.hops ∷ (h.source ++ (h.target ++ rest))))

abbrev pub IsHeader : Header → Type 0
IsHeader (ipv4 h) =
    (5 ≤ h.ihl)
    × (h.ihl < 16)
    × (length h.ident ≡ 5)
    × (length h.checksum ≡ 2)
    × (length h.source ≡ 4)
    × (length h.target ≡ 4)
    × (length h.options + 20 ≡ h.ihl * 4)
IsHeader (ipv6 h) =
    (h.class < 16) × (length h.flow_label ≡ 3) × (length h.source ≡ 16) × (length h.target ≡ 16)

pub record Frame : Type 0 where
  pub macs : List ℕ
  pub tag : Option (ℕ × ℕ)
  pub header : Header
  pub segment : Segment

abbrev pub type_bytes : Header → List ℕ → List ℕ
type_bytes (ipv4 h) rest = 0x08 ∷ 0x00 ∷ rest
type_bytes (ipv6 h) rest = 0x86 ∷ 0xdd ∷ rest

abbrev pub tag_bytes : Option (ℕ × ℕ) → List ℕ → List ℕ
tag_bytes none rest = rest
tag_bytes (some (hi, lo)) rest = 0x81 ∷ 0x00 ∷ hi ∷ lo ∷ rest

abbrev pub frame_bytes : Frame → List ℕ
frame_bytes f =
    f.macs
    ++ tag_bytes f.tag (
        type_bytes f.header
          (header_bytes f.header (protocol_of f.segment) (segment_bytes f.segment)))

pub record IsFrame (f : Frame) : Type 0 where
  pub macs : length f.macs ≡ 12
  pub header : IsHeader f.header
  pub segment : IsSegment f.segment

-- What a decoder has to say of the network header of a packet.
abbrev pub with_header : Header → ℕ → ParsedPacket → ParsedPacket
with_header (ipv4 h) protocol pkt = record pkt {
  src_ip = ipv4_mapped h.source;
  dst_ip = ipv4_mapped h.target;
  protocol = protocol;
  wire_length = h.total_length;
  is_ipv6 = false;
}
with_header (ipv6 h) protocol pkt = record pkt {
  src_ip = h.source;
  dst_ip = h.target;
  protocol = protocol;
  wire_length = h.payload_length + 40;
  is_ipv6 = true;
}

-- And of the segment: ports and flags, or the ICMP type and code in place of the source port.
abbrev pub with_segment : Segment → ParsedPacket → ParsedPacket
with_segment (tcp sport dport middle flags rest) pkt = record pkt {
  src_port = sport;
  dst_port = dport;
  tcp_fin = flags % 2 == 1;
  tcp_rst = flags / 4 % 2 == 1;
}
with_segment (udp sport dport rest) pkt = record pkt { src_port = sport; dst_port = dport }
with_segment (icmp type code rest) pkt = record pkt { src_port = type * 256 + code }
with_segment (icmpv6 type code rest) pkt = record pkt { src_port = type * 256 + code }
