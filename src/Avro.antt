-- ===== src/Avro.antt =====
-- src/avro/avro_serializer.cpp: the flow id, the record that an event becomes, and the wire format.
-- Outside the repository: `inet_ntop` for the two address families and the Avro
-- library, of which the code uses the number of fields of the compiled schema and the binary
-- encoding, which is `none` where the library throws.
pub mod Wire
pub mod Schema
pub mod FlowId
pub mod SchemaRegistryClient
mod Tests
use Prim.Native.String.{String, ◌++◌}
use packetpipe.Common.{
  ℕ, ◌+◌, ◌-◌, ◌/◌, ◌%◌, ◌^◌, Bool, true, false, Option, none, some, List, [], ◌∷◌, take, drop, leb,
  ltb, if◌then◌else◌,
}
use packetpipe.Common.Decimal.{to_string}
use packetpipe.Common.Int.{ℤ, pos, negsuc}
use packetpipe.Events.{
  FlowKey, FlowEvent, FlowEventType, start, end, stats, ExpireReason, idle_timeout, tcp_teardown,
  bytes_eq,
}

-- The fields of the schema in the order of their indices.
pub record FlowDatum : Type 0 where
  pub schema_version : String
  pub event_type : String
  pub flow_id : String
  pub src_ip : String
  pub dst_ip : String
  pub src_port : ℤ
  pub dst_port : ℤ
  pub protocol : ℤ
  pub start_ts : ℤ
  pub event_ts : ℤ
  pub packet_count : ℤ
  pub byte_count : ℤ
  pub expire_reason : Option String

pub record Libraries : Type 0 where
  pub inet_ntop4 : List ℕ → String
  pub inet_ntop6 : List ℕ → String
  pub field_count : ℕ
  pub encode : FlowDatum → Option (List ℕ)

unfoldable pub is_ipv4_mapped : List ℕ → Bool
is_ipv4_mapped ip = bytes_eq (take 12 ip) (0 ∷ 0 ∷ 0 ∷ 0 ∷ 0 ∷ 0 ∷ 0 ∷ 0 ∷ 0 ∷ 0 ∷ 0xff ∷ 0xff ∷ [])

-- `static_cast<int64_t>` of an unsigned number, and `static_cast<uint32_t>` of the schema id.
unfoldable pub to_int64 : ℕ → ℤ
to_int64 n = let w = n % 2 ^ 64 in if ltb w (2 ^ 63) then pos w else negsuc (2 ^ 64 - w - 1)

unfoldable pub to_uint32 : ℤ → ℕ
to_uint32 (pos n) = n % 2 ^ 32
to_uint32 (negsuc n) = 2 ^ 32 - 1 - n % 2 ^ 32

-- `htonl`, seen as bytes, and the payload behind them.
unfoldable pub big_endian : ℕ → List ℕ → List ℕ
big_endian id payload =
    id / 2 ^ 24 % 256 ∷ id / 2 ^ 16 % 256 ∷ id / 2 ^ 8 % 256 ∷ id % 256 ∷ payload

-- The magic byte, the schema id and the payload.
unfoldable pub wire_format : ℤ → List ℕ → List ℕ
unfolding big_endian
wire_format schema_id payload = 0 ∷ big_endian (to_uint32 schema_id) payload

unfoldable pub event_symbol : FlowEventType → String
event_symbol start = "FLOW_START"
event_symbol end = "FLOW_END"
event_symbol stats = "FLOW_STATS"

unfoldable pub reason_string : ExpireReason → String
reason_string idle_timeout = "idle_timeout"
reason_string tcp_teardown = "tcp_teardown"

-- The union of null and string: only an end event has a reason.
unfoldable pub reason_field : FlowEventType → ExpireReason → Option String
unfolding reason_string
reason_field end reason = some (reason_string reason)
reason_field start reason = none
reason_field stats reason = none

module _ (lib : Libraries) where
  unfoldable pub ip_array_to_string : List ℕ → String
  ip_array_to_string ip =
      if is_ipv4_mapped ip then lib.inet_ntop4 (take 4 (drop 12 ip)) else lib.inet_ntop6 ip

  unfoldable pub bracketed : List ℕ → String
  bracketed ip =
      let str = ip_array_to_string ip in if is_ipv4_mapped ip then str else "[" ++ str ++ "]"

  unfoldable pub flow_id : FlowKey → String
  flow_id key =
      bracketed key.src_ip
      ++ ":"
      ++ to_string key.src_port
      ++ "-"
      ++ bracketed key.dst_ip
      ++ ":"
      ++ to_string key.dst_port
      ++ "/"
      ++ to_string key.protocol

  unfoldable pub datum_of : FlowEvent → FlowDatum
  datum_of evt = record {
    schema_version = "1.0";
    event_type = event_symbol evt.type;
    flow_id = flow_id evt.state.key;
    src_ip = ip_array_to_string evt.state.key.src_ip;
    dst_ip = ip_array_to_string evt.state.key.dst_ip;
    src_port = pos evt.state.key.src_port;
    dst_port = pos evt.state.key.dst_port;
    protocol = pos evt.state.key.protocol;
    start_ts = evt.state.start_us;
    event_ts = evt.event_timestamp_us;
    packet_count = to_int64 evt.state.packet_count;
    byte_count = to_int64 evt.state.byte_count;
    expire_reason = reason_field evt.type evt.reason;
  }

  -- `none` is AvroSerializationError.
  unfoldable pub serialize : ℤ → FlowEvent → Option (List ℕ)
  unfolding wire_format
  serialize schema_id evt =
      if leb lib.field_count 12 then none else elim (lib.encode (datum_of evt)) [
        | none ↦ none
        | some payload ↦ some (wire_format schema_id payload)
      ]
