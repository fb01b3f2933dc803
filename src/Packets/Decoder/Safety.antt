-- ===== src/Packets/Decoder/Safety.antt =====
-- The decoder of src/packets/packet_decoder.cpp stays inside its buffer, and what it returns is
-- well formed.
use packetpipe.Packets.Decoder.Shape.{IsByte, IsAddress, mapped_prefix, HasNetwork, IsPacket}
use packetpipe.Packets.Decoder.Steps.{
  Ensures-if, Ensures-elim, guarded, with_read, with_read16, with_bytes,
}
use packetpipe.Common.{
  ℕ, ◌+◌, ◌*◌, ◌/◌, ◌%◌, ◌^◌, ◌≤◌, ◌<◌, ◌≡◌, ◌≢◌, refl, ◌⊎◌, false, not, ◌||◌, some, List, arith,
  ltb, ◌==◌, length, take, All,
}
use packetpipe.Packets.{ParsedPacket, blank_packet}
use packetpipe.Packets.Outcome.{ok, fault, Ensures, Ensures-bind, Ensures-guard}
use packetpipe.Packets.Decoder.{
  Timeval, eth_hdr_len, ether_ipv4, ether_ipv6, ether_vlan, ipproto_icmp, ipproto_tcp, ipproto_udp,
  ipproto_icmpv6, ipv4_mapped, type_and_code, link_layer, ipv4_layer, ipv6_layer, network_layer,
  tcp_layer, udp_layer, icmp_layer, transport_layer, decode_frame, decode,
}

-- What the later layers leave as it is, unless they say otherwise.
record IsBlank (pkt : ParsedPacket) : Type 0 where
  dst_port : pkt.dst_port ≡ 0
  fin : pkt.tcp_fin ≡ false
  rst : pkt.tcp_rst ≡ false

record HasHeader (r : ParsedPacket × ℕ) : Type 0 where
  network : HasNetwork r.0
  blank : IsBlank r.0

type_and_code-lt : (hi lo : ℕ) → type_and_code hi lo < 2 ^ 16
unfolding type_and_code
type_and_code-lt hi lo = omega arith

ipv4_mapped-IsAddress :
    (bs : List ℕ)
    → (length bs ≡ 4) × All IsByte bs
    → IsAddress (ipv4_mapped bs) × (take 12 (ipv4_mapped bs) ≡ mapped_prefix)
unfolding ipv4_mapped
ipv4_mapped-IsAddress bs p =
    let z : IsByte 0 = omega arith in
    let f : IsByte 0xff = omega arith in
    ((omega arith, (z, (z, (z, (z, (z, (z, (z, (z, (z, (z, (f, (f, p.1))))))))))))), refl)

module _ (buf : List ℕ) (bytes : All IsByte buf) (len : ℕ) (held : len ≤ length buf) where
  link_layer_lem : eth_hdr_len ≤ len → Ensures (λ _. Unit {0}) (link_layer buf len)
  unfolding link_layer
  link_layer_lem h = with_read16 buf bytes len held _ 12 _ (omega arith) λ e _.
      Ensures-if _ (e == ether_vlan) _ _
        (guarded buf bytes len held _ (eth_hdr_len + 4) _
          λ g. with_read16 buf bytes len held _ 16 _ (omega arith) λ w _. tt)
        tt

  ipv4_layer_lem :
      (offset : ℕ) (pkt : ParsedPacket)
      → IsBlank pkt
      → Ensures HasHeader (ipv4_layer buf len offset pkt)
  unfolding ipv4_layer
  ipv4_layer_lem offset pkt blank = guarded buf bytes len held HasHeader (offset + 20) _ λ g.
      with_read buf bytes len held HasHeader offset _ (omega arith) λ first _.
        Ensures-guard HasHeader (not (first / 16 == 4)) _ λ _.
          Ensures-guard HasHeader (ltb (first % 16 * 4) 20 || ltb len (offset + first % 16 * 4)) _
            λ _. with_bytes buf bytes len held HasHeader (offset + 12) 4 _ (omega arith) λ src p.
              with_bytes buf bytes len held HasHeader (offset + 16) 4 _ (omega arith) λ dst q.
                with_read buf bytes len held HasHeader (offset + 9) _ (omega arith) λ protocol _.
                  with_read16 buf bytes len held HasHeader (offset + 2) _ (omega arith) λ total w.
                    let src_lem = ipv4_mapped-IsAddress src p in
                    let dst_lem = ipv4_mapped-IsAddress dst q in
                    record {
                      network = record {
                        src = src_lem.0;
                        dst = dst_lem.0;
                        src_mapped = λ _. src_lem.1;
                        dst_mapped = λ _. dst_lem.1;
                        sized = omega arith;
                      };
                      blank = record {
                        dst_port = blank.dst_port;
                        fin = blank.fin;
                        rst = blank.rst;
                      };
                    }

  ipv6_layer_lem :
      (offset : ℕ) (pkt : ParsedPacket)
      → IsBlank pkt
      → Ensures HasHeader (ipv6_layer buf len offset pkt)
  unfolding ipv6_layer
  ipv6_layer_lem offset pkt blank = guarded buf bytes len held HasHeader (offset + 40) _ λ g.
      with_read buf bytes len held HasHeader offset _ (omega arith) λ first _.
        Ensures-guard HasHeader (not (first / 16 == 6)) _ λ _.
          with_bytes buf bytes len held HasHeader (offset + 8) 16 _ (omega arith) λ src p.
            with_bytes buf bytes len held HasHeader (offset + 24) 16 _ (omega arith) λ dst q.
              with_read buf bytes len held HasHeader (offset + 6) _ (omega arith) λ protocol _.
                with_read16 buf bytes len held HasHeader (offset + 4) _ (omega arith) λ payload w.
                  record {
                    network = record {
                      src = p;
                      dst = q;
                      src_mapped = λ e. cc;
                      dst_mapped = λ e. cc;
                      sized = omega arith;
                    };
                    blank = record { dst_port = blank.dst_port; fin = blank.fin; rst = blank.rst };
                  }

  network_layer_lem :
      (ethertype offset : ℕ) (pkt : ParsedPacket)
      → IsBlank pkt
      → Ensures HasHeader (network_layer buf len ethertype offset pkt)
  unfolding network_layer
  network_layer_lem ethertype offset pkt blank =
      Ensures-if HasHeader (ethertype == ether_ipv4) _ _ (ipv4_layer_lem offset pkt blank)
        (Ensures-if HasHeader (ethertype == ether_ipv6) _ _ (ipv6_layer_lem offset pkt blank) tt)

  icmp_layer_lem :
      (needed offset : ℕ) (pkt : ParsedPacket)
      → 4 ≤ needed
      → HasNetwork pkt
      → IsBlank pkt
      → (pkt.protocol ≡ ipproto_icmp) ⊎ (pkt.protocol ≡ ipproto_icmpv6)
      → Ensures IsPacket (icmp_layer needed buf len offset pkt)
  unfolding icmp_layer
  icmp_layer_lem needed offset pkt h net blank known =
      guarded buf bytes len held IsPacket (offset + needed) _ λ g.
        with_read buf bytes len held IsPacket offset _ (omega arith) λ type _.
          with_read buf bytes len held IsPacket (offset + 1) _ (omega arith)
            λ code _. ground (arith, net, blank, type_and_code-lt type code)

  tcp_layer_lem :
      (offset : ℕ) (pkt : ParsedPacket)
      → HasNetwork pkt
      → pkt.protocol ≡ ipproto_tcp
      → Ensures IsPacket (tcp_layer buf len offset pkt)
  unfolding tcp_layer
  tcp_layer_lem offset pkt net known = guarded buf bytes len held IsPacket (offset + 20) _ λ g.
      with_read16 buf bytes len held IsPacket offset _ (omega arith) λ sport p.
        with_read16 buf bytes len held IsPacket (offset + 2) _ (omega arith) λ dport q.
          with_read buf bytes len held IsPacket (offset + 13) _ (omega arith)
            λ flags _. ground (arith, net)

  udp_layer_lem :
      (offset : ℕ) (pkt : ParsedPacket)
      → HasNetwork pkt
      → IsBlank pkt
      → pkt.protocol ≡ ipproto_udp
      → Ensures IsPacket (udp_layer buf len offset pkt)
  unfolding udp_layer
  udp_layer_lem offset pkt net blank known = guarded buf bytes len held IsPacket (offset + 8) _ λ g.
      with_read16 buf bytes len held IsPacket offset _ (omega arith) λ sport p.
        with_read16 buf bytes len held IsPacket (offset + 2) _ (omega arith)
          λ dport q. ground (arith, net, blank)

  transport_layer_lem :
      (offset : ℕ) (pkt : ParsedPacket)
      → HasNetwork pkt
      → IsBlank pkt
      → Ensures IsPacket (transport_layer buf len offset pkt)
  unfolding transport_layer
  transport_layer_lem offset pkt net blank = ground (
    arith,
    tcp_layer_lem offset pkt net,
    udp_layer_lem offset pkt net blank,
    icmp_layer_lem 8 offset pkt (omega arith) net blank,
    icmp_layer_lem 4 offset pkt (omega arith) net blank,
  )

  decode_frame_lem : (ts : Timeval) → Ensures IsPacket (decode_frame buf len ts)
  unfolding decode_frame blank_packet
  decode_frame_lem ts = guarded buf bytes len held IsPacket eth_hdr_len _ λ g.
      Ensures-bind (λ _. Unit {0}) IsPacket (link_layer buf len) _ (link_layer_lem g)
        λ link _.
          Ensures-bind HasHeader IsPacket _ _
            (network_layer_lem link.0 link.1 _ (record { dst_port = refl; fin = refl; rst = refl }))
            λ header h. transport_layer_lem header.1 header.0 h.network h.blank

-- For any frame of bytes and any captured length that the buffer covers, decoding never reads
-- outside the buffer, and any packet that it returns has two addresses of 16 bytes, IPv4-mapped
-- unless the packet is IPv6, ports of 16 bits, an IP length below 2^16 + 40, one of the four known
-- protocols, and FIN and RST only for TCP.
pub decode-IsPacket :
    (buf : List ℕ) (len : ℕ) (ts : Timeval)
    → All IsByte buf
    → len ≤ length buf
    → (decode (some buf) len ts ≢ fault)
      × ((pkt : ParsedPacket) → decode (some buf) len ts ≡ ok pkt → IsPacket pkt)
unfolding decode
decode-IsPacket buf len ts bytes held =
    Ensures-elim IsPacket (decode_frame buf len ts) (decode_frame_lem buf bytes len held ts)
