-- ===== src/Packets/Decoder.antt =====
-- src/packets/packet_decoder.cpp and packet_decoder.hpp. A frame is the list of the bytes that the
-- pointer leads to, `none` the null pointer; `len` is the captured length that the caller passes.
-- The fields of the protocol headers stand at the offsets of <netinet/*.h>. Offsets are sums of
-- small constants and never come near the width of `uint32_t`.
pub mod Shape
pub mod Steps
pub mod Safety
pub mod Longer
pub mod Cursor
pub mod Frame
pub mod Layers
pub mod RoundTrip
use packetpipe.Common.{
  ℕ, zero, suc, ◌+◌, ◌*◌, ◌/◌, ◌%◌, ◌^◌, Bool, true, false, not, ◌||◌, Option, none, some, List, [],
  ◌∷◌, ◌++◌, ltb, ◌==◌, if◌then◌else◌, get_elem?, replicate, bit_and, bit_or,
}
use packetpipe.Common.Int.{ℤ, pos, ◌+ℤ◌, ◌*ℤ◌}
use packetpipe.Packets.{ParsedPacket, blank_packet}
use packetpipe.Packets.Outcome.{Outcome, ok, reject, fault, ◌>>=◌, ◌>>◌, reject_if}

-- `struct timeval`.
pub record Timeval : Type 0 where
  pub tv_sec : ℤ
  pub tv_usec : ℤ

abbrev pub eth_hdr_len : ℕ
eth_hdr_len = 14

abbrev pub ether_ipv4 : ℕ
ether_ipv4 = 0x0800

abbrev pub ether_ipv6 : ℕ
ether_ipv6 = 0x86dd

abbrev pub ether_vlan : ℕ
ether_vlan = 0x8100

-- IPPROTO_ICMP, IPPROTO_TCP, IPPROTO_UDP and IPPROTO_ICMPV6 of <netinet/in.h>.
abbrev pub ipproto_icmp : ℕ
ipproto_icmp = 1

abbrev pub ipproto_tcp : ℕ
ipproto_tcp = 6

abbrev pub ipproto_udp : ℕ
ipproto_udp = 17

abbrev pub ipproto_icmpv6 : ℕ
ipproto_icmpv6 = 58

-- `data[i]`.
unfoldable pub read : List ℕ → ℕ → Outcome ℕ
read buf i = elim (get_elem? buf i) [ none ↦ fault | some b ↦ ok b ]

-- `ntohs` of the two bytes at `i`.
unfoldable pub read16 : List ℕ → ℕ → Outcome ℕ
read16 buf i = do hi ← read buf i; lo ← read buf (i + 1); ok (hi * 256 + lo)

-- The `n` bytes from `i` on, as `memcpy` reads them.
unfoldable pub read_bytes : List ℕ → ℕ → ℕ → Outcome (List ℕ)
read_bytes buf i zero = ok []
read_bytes buf i (suc n) = do b ← read buf i; bs ← read_bytes buf (i + 1) n; ok (b ∷ bs)

unfoldable pub ipv4_mapped : List ℕ → List ℕ
ipv4_mapped addr4 = replicate 10 0 ++ 0xff ∷ 0xff ∷ addr4

unfoldable pub timestamp : Timeval → ℤ
timestamp ts = ts.tv_sec *ℤ pos 1_000_000 +ℤ ts.tv_usec

-- `(static_cast<uint16_t>(hi) << 8) | lo`, cast to `uint16_t`.
unfoldable pub type_and_code : ℕ → ℕ → ℕ
type_and_code hi lo = bit_or (hi * 256) lo % 2 ^ 16

-- The Ethernet header, with at most one VLAN tag: the ethertype and the offset behind it.
unfoldable pub link_layer : List ℕ → ℕ → Outcome (ℕ × ℕ)
link_layer buf len = do
  ethertype ← read16 buf 12
  if ethertype == ether_vlan
      then (do reject_if (ltb len (eth_hdr_len + 4)); inner ← read16 buf 16; ok (inner, 18))
      else ok (ethertype, eth_hdr_len)

unfoldable pub ipv4_layer : List ℕ → ℕ → ℕ → ParsedPacket → Outcome (ParsedPacket × ℕ)
ipv4_layer buf len offset pkt = do
  reject_if (ltb len (offset + 20))
  first ← read buf offset
  reject_if (not (first / 16 == 4))
  let ip_hdr_len = first % 16 * 4
  reject_if (ltb ip_hdr_len 20 || ltb len (offset + ip_hdr_len))
  src ← read_bytes buf (offset + 12) 4
  dst ← read_bytes buf (offset + 16) 4
  protocol ← read buf (offset + 9)
  total ← read16 buf (offset + 2)
  ok (
    record pkt {
      src_ip = ipv4_mapped src;
      dst_ip = ipv4_mapped dst;
      protocol = protocol;
      wire_length = total;
      is_ipv6 = false;
    },
    offset + ip_hdr_len,
  )

unfoldable pub ipv6_layer : List ℕ → ℕ → ℕ → ParsedPacket → Outcome (ParsedPacket × ℕ)
ipv6_layer buf len offset pkt = do
  reject_if (ltb len (offset + 40))
  first ← read buf offset
  reject_if (not (first / 16 == 6))
  src ← read_bytes buf (offset + 8) 16
  dst ← read_bytes buf (offset + 24) 16
  protocol ← read buf (offset + 6)
  payload ← read16 buf (offset + 4)
  ok (
    record pkt {
      src_ip = src;
      dst_ip = dst;
      protocol = protocol;
      wire_length = payload + 40;
      is_ipv6 = true;
    },
    offset + 40,
  )

unfoldable pub network_layer : List ℕ → ℕ → ℕ → ℕ → ParsedPacket → Outcome (ParsedPacket × ℕ)
network_layer buf len ethertype offset pkt =
    if ethertype == ether_ipv4
    then ipv4_layer buf len offset pkt
    else if ethertype == ether_ipv6
    then ipv6_layer buf len offset pkt
    else reject

unfoldable pub tcp_layer : List ℕ → ℕ → ℕ → ParsedPacket → Outcome ParsedPacket
tcp_layer buf len offset pkt = do
  reject_if (ltb len (offset + 20))
  sport ← read16 buf offset
  dport ← read16 buf (offset + 2)
  flags ← read buf (offset + 13)
  ok (record pkt {
    src_port = sport;
    dst_port = dport;
    tcp_fin = not (bit_and flags 1 == 0);
    tcp_rst = not (bit_and flags 4 == 0);
  })

unfoldable pub udp_layer : List ℕ → ℕ → ℕ → ParsedPacket → Outcome ParsedPacket
udp_layer buf len offset pkt = do
  reject_if (ltb len (offset + 8))
  sport ← read16 buf offset
  dport ← read16 buf (offset + 2)
  ok (record pkt { src_port = sport; dst_port = dport })

-- ICMP needs its 8-byte header, ICMPv6 the first 4 bytes; both read the type and the code.
unfoldable pub icmp_layer : ℕ → List ℕ → ℕ → ℕ → ParsedPacket → Outcome ParsedPacket
icmp_layer needed buf len offset pkt = do
  reject_if (ltb len (offset + needed))
  type ← read buf offset
  code ← read buf (offset + 1)
  ok (record pkt { src_port = type_and_code type code })

unfoldable pub transport_layer : List ℕ → ℕ → ℕ → ParsedPacket → Outcome ParsedPacket
transport_layer buf len offset pkt =
    if pkt.protocol == ipproto_tcp
    then tcp_layer buf len offset pkt
    else if pkt.protocol == ipproto_udp
    then udp_layer buf len offset pkt
    else if pkt.protocol == ipproto_icmp
    then icmp_layer 8 buf len offset pkt
    else if pkt.protocol == ipproto_icmpv6
    then icmp_layer 4 buf len offset pkt
    else reject

unfoldable pub decode_frame : List ℕ → ℕ → Timeval → Outcome ParsedPacket
decode_frame buf len ts = do
  reject_if (ltb len eth_hdr_len)
  (ethertype, offset) ← link_layer buf len
  let pkt = record blank_packet { timestamp_us = timestamp ts }
  (pkt', offset') ← network_layer buf len ethertype offset pkt
  transport_layer buf len offset' pkt'

-- `PacketDecoder::decode`.
unfoldable pub decode : Option (List ℕ) → ℕ → Timeval → Outcome ParsedPacket
unfolding decode_frame
decode none len ts = reject
decode (some buf) len ts = decode_frame buf len ts
