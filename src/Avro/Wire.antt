-- ===== src/Avro/Wire.antt =====
-- What a reader of the wire format of src/avro/avro_serializer.cpp gets back.
use packetpipe.Common.{
  ℕ, ◌+◌, ◌*◌, ◌/◌, ◌%◌, ◌^◌, ◌<◌, ◌≡◌, refl, ap, Option, none, some, List, [], ◌∷◌, leb, inl, inr,
  Bool-cases, if◌then◌else◌, arith,
}
use packetpipe.Common.Int.{pos}
use packetpipe.Events.{FlowEvent}
use packetpipe.Avro.{Libraries, to_uint32, big_endian, datum_of, wire_format, serialize}

-- A reader: the schema id and the payload behind a zero byte.
abbrev pub read_wire : List ℕ → Option (ℕ × List ℕ)
read_wire [] = none
read_wire (m ∷ a ∷ b ∷ c ∷ d ∷ payload) =
    if leb m 0 then some (((a * 256 + b) * 256 + c) * 256 + d, payload) else none
read_wire _ = none

abbrev pub read_all : Option (List ℕ) → Option (ℕ × List ℕ)
read_all none = none
read_all (some bytes) = read_wire bytes

abbrev pub with_id : ℕ → Option (List ℕ) → Option (ℕ × List ℕ)
with_id id none = none
with_id id (some payload) = some (id, payload)

id_again :
    (id : ℕ)
    → id < 2 ^ 31
    → ((id % 2 ^ 32 / 2 ^ 24 % 256 * 256 + id % 2 ^ 32 / 2 ^ 16 % 256) * 256
            + id % 2 ^ 32 / 2 ^ 8 % 256)
          * 256
        + id % 2 ^ 32 % 256
      ≡ id
id_again id h = omega arith

-- For every event and every schema id that is not negative and fits an `int32_t`: reading back what
-- the serializer writes gives the schema id and the encoded record of the event, and nothing where
-- the serializer throws, which it does exactly when the schema has fewer than 13 fields or the
-- encoder throws.
pub serialize-read_wire :
    (lib : Libraries) (id : ℕ) (evt : FlowEvent)
    → id < 2 ^ 31
    → read_all (serialize lib (pos id) evt)
      ≡ (if leb lib.field_count 12 then none else with_id id (lib.encode (datum_of lib evt)))
unfolding serialize wire_format big_endian to_uint32
serialize-read_wire lib id evt h = elim (Bool-cases (leb lib.field_count 12)) [
  | inl e ↦ rw e refl
  | inr e ↦ rw e (encoded (lib.encode (datum_of lib evt)))
]
  where
    encoded :
        (r : Option (List ℕ))
        → read_all (elim r [ none ↦ none | some payload ↦ some (wire_format (pos id) payload) ])
          ≡ with_id id r
    encoded none = refl
    encoded (some payload) = ap (λ i. some (i, payload)) (id_again id h)
