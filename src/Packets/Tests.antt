-- ===== src/Packets/Tests.antt =====
-- Runs of the decoder on concrete frames, and its theorems at them.
use packetpipe.Common.{◌≡◌, ◌≢◌, refl, some, [], ◌∷◌, ◌++◌, arith, replicate, length}
use packetpipe.Common.Int.{pos, ◌+ℤ◌, ◌*ℤ◌}
use packetpipe.Packets.{ParsedPacket, blank_packet}
use packetpipe.Packets.Outcome.{ok, reject, fault, reject_if}
use packetpipe.Packets.Decoder.Shape.{IsPacket}
use packetpipe.Packets.Decoder.Safety.{decode-IsPacket}
use packetpipe.Packets.Decoder.Longer.{decode-append}
use packetpipe.Packets.Decoder.Frame.{
  Frame, IsFrame, frame_bytes, ipv4, tcp, with_segment, with_header, protocol_of,
}
use packetpipe.Packets.Decoder.RoundTrip.{decode-frame_bytes}
use packetpipe.Packets.Decoder.{
  Timeval, timestamp, read, read16, read_bytes, link_layer, ipv4_layer, network_layer, tcp_layer,
  transport_layer, decode,
}

-- A tagged TCP segment over IPv4, with one word of options and the FIN and ACK flags.
abbrev tagged_fin : Frame
tagged_fin = record {
  macs = replicate 12 0xaa;
  tag = some (0, 7);
  header = ipv4 (record {
    ihl = 6;
    tos = 0;
    total_length = 44;
    ident = 0 ∷ 1 ∷ 0 ∷ 0 ∷ 64 ∷ [];
    checksum = 0 ∷ 0 ∷ [];
    source = 10 ∷ 0 ∷ 0 ∷ 1 ∷ [];
    target = 10 ∷ 0 ∷ 0 ∷ 2 ∷ [];
    options = 1 ∷ 1 ∷ 1 ∷ 1 ∷ [];
  });
  segment = tcp 443 51000 (replicate 9 0) 0x11 (replicate 6 0);
}

abbrev noon : Timeval
noon = record { tv_sec = pos 43_200; tv_usec = pos 5 }

abbrev decoded : ParsedPacket
decoded = with_segment tagged_fin.segment (
    with_header tagged_fin.header (protocol_of tagged_fin.segment)
      (record blank_packet { timestamp_us = timestamp noon }))

decode-tagged_fin : decode (some (frame_bytes tagged_fin)) 62 noon ≡ ok decoded
unfolding decode link_layer network_layer ipv4_layer transport_layer tcp_layer read16 read_bytes
    read reject_if
decode-tagged_fin = refl

decode_time : decoded.timestamp_us ≡ pos 43_200_000_005
unfolding timestamp ◌+ℤ◌ ◌*ℤ◌
decode_time = refl

decode_short : decode (some (frame_bytes tagged_fin)) 61 noon ≡ reject
unfolding decode link_layer network_layer ipv4_layer transport_layer tcp_layer read16 read_bytes
    read reject_if
decode_short = refl

-- A captured length that the buffer does not cover makes the decoder read outside.
decode_beyond : decode (some []) 14 noon ≡ fault
unfolding decode link_layer read16 read reject_if
decode_beyond = refl

tagged_fin-IsFrame : IsFrame tagged_fin
tagged_fin-IsFrame = omega arith

decode-frame_bytes_example :
    decode (some (frame_bytes tagged_fin)) (length (frame_bytes tagged_fin)) noon ≡ ok decoded
decode-frame_bytes_example = decode-frame_bytes tagged_fin noon tagged_fin-IsFrame

decode-append_example : decode (some (frame_bytes tagged_fin ++ 0 ∷ 0 ∷ [])) 64 noon ≡ ok decoded
decode-append_example =
    decode-append (frame_bytes tagged_fin) (0 ∷ 0 ∷ []) 62 64 noon decoded decode-tagged_fin
      (omega arith)

decode-IsPacket_example :
    (decode (some (frame_bytes tagged_fin)) 62 noon ≢ fault)
    × ((pkt : ParsedPacket)
        → decode (some (frame_bytes tagged_fin)) 62 noon ≡ ok pkt
        → IsPacket pkt)
decode-IsPacket_example =
    decode-IsPacket (frame_bytes tagged_fin) 62 noon (omega arith) (omega arith)
