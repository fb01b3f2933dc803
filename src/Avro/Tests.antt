-- ===== src/Avro/Tests.antt =====
-- The serializer of src/avro/avro_serializer.cpp with small libraries.
use packetpipe.Common.{◌≡◌, refl, some, [], ◌∷◌, replicate, ◌++◌, arith}
use packetpipe.Common.Decimal.{to_string}
use packetpipe.Common.Int.{pos}
use packetpipe.Events.{bytes_eq, FlowEvent, end, tcp_teardown}
use packetpipe.Avro.{
  datum_of, Libraries, flow_id, serialize, to_uint32, is_ipv4_mapped, ip_array_to_string, bracketed,
}
use packetpipe.Avro.Schema.{
  expire_value, fields_of, flow_event_schema, Conforms, HasReason, fields_of-Conforms,
}
use packetpipe.Avro.Wire.{read_all, serialize-read_wire}

abbrev libraries : Libraries
libraries = record {
  inet_ntop4 = λ ip. "10.0.0.1";
  inet_ntop6 = λ ip. "fe80::1";
  field_count = 13;
  encode = λ datum. some (1 ∷ 2 ∷ 3 ∷ []);
}

abbrev event : FlowEvent
event = record {
  type = end;
  state = record {
    key = record {
      src_ip = replicate 10 0 ++ 0xff ∷ 0xff ∷ 10 ∷ 0 ∷ 0 ∷ 1 ∷ [];
      dst_ip = 0xfe ∷ 0x80 ∷ replicate 13 0 ++ 1 ∷ [];
      src_port = 80;
      dst_port = 80;
      protocol = 6;
    };
    start_us = pos 5;
    last_seen_us = pos 9;
    packet_count = 3;
    byte_count = 180;
  };
  event_timestamp_us = pos 9;
  reason = tcp_teardown;
}

flow_id_test : flow_id libraries event.state.key ≡ "10.0.0.1:80-[fe80::1]:80/6"
unfolding flow_id to_string bracketed ip_array_to_string is_ipv4_mapped bytes_eq
flow_id_test = refl

serialize_test :
    serialize libraries (pos 0x01020304) event ≡ some (0 ∷ 1 ∷ 2 ∷ 3 ∷ 4 ∷ 1 ∷ 2 ∷ 3 ∷ [])
unfolding serialize to_uint32
serialize_test = refl

serialize-read_wire_example :
    read_all (serialize libraries (pos 0x01020304) event) ≡ some (0x01020304, 1 ∷ 2 ∷ 3 ∷ [])
serialize-read_wire_example = serialize-read_wire libraries 0x01020304 event (omega arith)

fields_of-Conforms_example :
    Conforms (fields_of (datum_of libraries event)) flow_event_schema
    × HasReason event.type (expire_value (datum_of libraries event).expire_reason)
fields_of-Conforms_example = fields_of-Conforms libraries event (record {
  src_port = omega arith;
  dst_port = omega arith;
  protocol = omega arith;
  start_us = omega arith;
  event_timestamp_us = omega arith;
})
