-- ===== src/Packets/Decoder/Shape.antt =====
-- The shape of the packets that src/packets/packet_decoder.cpp returns.
use packetpipe.Common.{ℕ, ◌+◌, ◌^◌, ◌<◌, ◌≡◌, ◌⊎◌, true, false, List, [], ◌∷◌, length, take, All}
use packetpipe.Packets.{ParsedPacket}
use packetpipe.Packets.Decoder.{ipproto_icmp, ipproto_tcp, ipproto_udp, ipproto_icmpv6}

abbrev pub IsByte : ℕ → Type 0
IsByte b = b < 256

abbrev pub IsWord : ℕ → Type 0
IsWord w = w < 2 ^ 16

-- Sixteen bytes.
abbrev pub IsAddress : List ℕ → Type 0
IsAddress ip = (length ip ≡ 16) × All IsByte ip

-- The first twelve bytes of an IPv4-mapped address.
abbrev pub mapped_prefix : List ℕ
mapped_prefix = 0 ∷ 0 ∷ 0 ∷ 0 ∷ 0 ∷ 0 ∷ 0 ∷ 0 ∷ 0 ∷ 0 ∷ 0xff ∷ 0xff ∷ []

-- Addresses, mapped if the packet is IPv4, and a length that fits.
pub record HasNetwork (pkt : ParsedPacket) : Type 0 where
  pub src : IsAddress pkt.src_ip
  pub dst : IsAddress pkt.dst_ip
  pub src_mapped : pkt.is_ipv6 ≡ false → take 12 pkt.src_ip ≡ mapped_prefix
  pub dst_mapped : pkt.is_ipv6 ≡ false → take 12 pkt.dst_ip ≡ mapped_prefix
  pub sized : pkt.wire_length < 2 ^ 16 + 40

pub record IsPacket (pkt : ParsedPacket) : Type 0 where
  pub network : HasNetwork pkt
  pub src_port : pkt.src_port < 2 ^ 16
  pub dst_port : pkt.dst_port < 2 ^ 16
  pub fin : pkt.tcp_fin ≡ true → pkt.protocol ≡ ipproto_tcp
  pub rst : pkt.tcp_rst ≡ true → pkt.protocol ≡ ipproto_tcp
  pub known :
      (pkt.protocol ≡ ipproto_tcp)
      ⊎ ((pkt.protocol ≡ ipproto_udp)
          ⊎ ((pkt.protocol ≡ ipproto_icmp) ⊎ (pkt.protocol ≡ ipproto_icmpv6)))
