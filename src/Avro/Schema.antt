-- ===== src/Avro/Schema.antt =====
-- schemas/FlowEvent.avsc, and the record of an event as the generic datum that
-- src/avro/avro_serializer.cpp fills, field by field in the order of its indices.
use Prim.Native.String.{String}
use packetpipe.Common.{
  ℕ, ◌%◌, ◌^◌, ◌<◌, ◌≡◌, refl, ◌⊎◌, inl, inr, Bool-cases, Option, none, some, List, [], ◌∷◌, ltb,
  ltb→lt, ltb→ge, arith,
}
use packetpipe.Common.Int.{ℤ, pos, negsuc}
use packetpipe.Events.{
  FlowEvent, FlowEventType, start, end, stats, ExpireReason, idle_timeout, tcp_teardown,
}
use packetpipe.Avro.{FlowDatum, Libraries, datum_of, to_int64, event_symbol, reason_field}

pub data AvroType : Type 0 where
  string_type int_type long_type nullable_string : AvroType
  enum_type : List String → AvroType

pub data AvroValue : Type 0 where
  null_value : AvroValue
  string_value enum_value : String → AvroValue
  int_value long_value : ℤ → AvroValue

-- The fields' names and types, in the order of the file.
abbrev pub flow_event_schema : List (String × AvroType)
flow_event_schema =
    ("schema_version", string_type)
    ∷ ("event_type", enum_type ("FLOW_START" ∷ "FLOW_END" ∷ "FLOW_STATS" ∷ []))
    ∷ ("flow_id", string_type)
    ∷ ("src_ip", string_type)
    ∷ ("dst_ip", string_type)
    ∷ ("src_port", int_type)
    ∷ ("dst_port", int_type)
    ∷ ("protocol", int_type)
    ∷ ("start_timestamp_us", long_type)
    ∷ ("event_timestamp_us", long_type)
    ∷ ("packet_count", long_type)
    ∷ ("byte_count", long_type)
    ∷ ("expire_reason", nullable_string)
    ∷ []

unfoldable pub expire_value : Option String → AvroValue
expire_value none = null_value
expire_value (some s) = string_value s

-- `kSchemaVersionIdx` is 0, and so on.
unfoldable pub fields_of : FlowDatum → List AvroValue
unfolding expire_value
fields_of d =
    string_value d.schema_version
    ∷ enum_value d.event_type
    ∷ string_value d.flow_id
    ∷ string_value d.src_ip
    ∷ string_value d.dst_ip
    ∷ int_value d.src_port
    ∷ int_value d.dst_port
    ∷ int_value d.protocol
    ∷ long_value d.start_ts
    ∷ long_value d.event_ts
    ∷ long_value d.packet_count
    ∷ long_value d.byte_count
    ∷ expire_value d.expire_reason
    ∷ []

-- A signed number of `k` bits and a sign.
abbrev pub FitsIn : ℕ → ℤ → Type 0
FitsIn k (pos n) = n < 2 ^ k
FitsIn k (negsuc n) = n < 2 ^ k

abbrev pub OneOf : String → List String → Type 0
OneOf s [] = ⊥
OneOf s (t ∷ ts) = (s ≡ t) ⊎ OneOf s ts

-- A value of a type of the schema.
pub data HasType : AvroValue → AvroType → Type 0 where
  string_typed : {s : String} → HasType (string_value s) string_type
  int_typed : {n : ℤ} → FitsIn 31 n → HasType (int_value n) int_type
  long_typed : {n : ℤ} → FitsIn 63 n → HasType (long_value n) long_type
  null_typed : HasType null_value nullable_string
  some_typed : {s : String} → HasType (string_value s) nullable_string
  enum_typed :
      {s : String} {symbols : List String}
      → OneOf s symbols
      → HasType (enum_value s) (enum_type symbols)

abbrev pub Conforms : List AvroValue → List (String × AvroType) → Type 0
Conforms [] [] = Unit
Conforms [] (t ∷ ts) = ⊥
Conforms (v ∷ vs) [] = ⊥
Conforms (v ∷ vs) ((name, t) ∷ ts) = HasType v t × Conforms vs ts

-- The fields of an event are of their types in the program.
pub record IsEvent (evt : FlowEvent) : Type 0 where
  pub src_port : evt.state.key.src_port < 2 ^ 16
  pub dst_port : evt.state.key.dst_port < 2 ^ 16
  pub protocol : evt.state.key.protocol < 2 ^ 8
  pub start_us : FitsIn 63 evt.state.start_us
  pub event_timestamp_us : FitsIn 63 evt.event_timestamp_us

FitsIn-to_int64 : (n : ℕ) → FitsIn 63 (to_int64 n)
unfolding to_int64
FitsIn-to_int64 n = elim (Bool-cases (ltb (n % 2 ^ 64) (2 ^ 63))) [
  | inl e ↦ rw e (ltb→lt _ _ e)
  | inr e ↦ rw e (omega (arith, ltb→ge _ _ e))
]

-- Only an end event has a reason, and it is one of the two words.
abbrev pub HasReason : FlowEventType → AvroValue → Type 0
HasReason end v = (v ≡ string_value "idle_timeout") ⊎ (v ≡ string_value "tcp_teardown")
HasReason start v = v ≡ null_value
HasReason stats v = v ≡ null_value

expire_lem :
    (t : FlowEventType) (r : ExpireReason)
    → HasType (expire_value (reason_field t r)) nullable_string
      × HasReason t (expire_value (reason_field t r))
unfolding expire_value reason_field
expire_lem start r = (null_typed, refl)
expire_lem stats r = (null_typed, refl)
expire_lem end idle_timeout = (some_typed, inl refl)
expire_lem end tcp_teardown = (some_typed, inr refl)

symbol_lem :
    (t : FlowEventType) → OneOf (event_symbol t) ("FLOW_START" ∷ "FLOW_END" ∷ "FLOW_STATS" ∷ [])
unfolding event_symbol
symbol_lem start = inl refl
symbol_lem end = inr (inl refl)
symbol_lem stats = inr (inr (inl refl))

-- For every event whose fields are of their types in the program: the record that the serializer fills
-- conforms to the schema of the repository, field by field in its order, with numbers within the
-- ranges of their types and the enum within its symbols; and the reason is null unless the event
-- is an end event, which has one of the two words.
pub fields_of-Conforms :
    (lib : Libraries) (evt : FlowEvent)
    → IsEvent evt
    → Conforms (fields_of (datum_of lib evt)) flow_event_schema
      × HasReason evt.type (expire_value (datum_of lib evt).expire_reason)
unfolding fields_of datum_of
fields_of-Conforms lib evt h = (
  (
    string_typed,
    (
      enum_typed (symbol_lem evt.type),
      (
        string_typed,
        (
          string_typed,
          (
            string_typed,
            (
              int_typed (omega (arith, h.src_port)),
              (
                int_typed (omega (arith, h.dst_port)),
                (
                  int_typed (omega (arith, h.protocol)),
                  (
                    long_typed h.start_us,
                    (
                      long_typed h.event_timestamp_us,
                      (
                        long_typed (FitsIn-to_int64 evt.state.packet_count),
                        (
                          long_typed (FitsIn-to_int64 evt.state.byte_count),
                          ((expire_lem evt.type evt.reason).0, tt),
                        ),
                      ),
                    ),
                  ),
                ),
              ),
            ),
          ),
        ),
      ),
    ),
  ),
  (expire_lem evt.type evt.reason).1,
)
