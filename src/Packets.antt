-- ===== src/Packets.antt =====
-- src/packets/parsed_packet.hpp: what the decoder hands to the flow table.
pub mod Outcome
pub mod Decoder
pub mod Sources
mod Tests
use packetpipe.Common.{ℕ, Bool, false, List, replicate}
use packetpipe.Common.Int.{ℤ, pos}

pub record ParsedPacket : Type 0 where
  pub src_ip : List ℕ
  pub dst_ip : List ℕ
  pub src_port : ℕ
  pub dst_port : ℕ
  pub protocol : ℕ
  pub wire_length : ℕ
  pub timestamp_us : ℤ
  pub tcp_fin : Bool
  pub tcp_rst : Bool
  pub is_ipv6 : Bool

-- `ParsedPacket pkt{}`: the member initialisers.
unfoldable pub blank_packet : ParsedPacket
blank_packet = record {
  src_ip = replicate 16 0;
  dst_ip = replicate 16 0;
  src_port = 0;
  dst_port = 0;
  protocol = 0;
  wire_length = 0;
  timestamp_us = pos 0;
  tcp_fin = false;
  tcp_rst = false;
  is_ipv6 = false;
}
