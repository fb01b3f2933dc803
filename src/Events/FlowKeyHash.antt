-- ===== src/Events/FlowKeyHash.antt =====
-- The hash of src/events/flow_key.hpp, FNV-1a of 64 bits over the fields of a key.
pub mod Apart
use packetpipe.Common.{ℕ, ◌*◌, ◌/◌, ◌%◌, ◌^◌, List, [], ◌∷◌, ◌++◌, bit_and, bit_xor}
use packetpipe.Events.{FlowKey}

abbrev pub fnv_offset : ℕ
fnv_offset = 14_695_981_039_346_656_037

abbrev pub fnv_prime : ℕ
fnv_prime = 1_099_511_628_211

-- `h ^= b; h *= FNV_PRIME;`
unfoldable pub mix : ℕ → ℕ → ℕ
mix h b = bit_xor h b * fnv_prime % 2 ^ 64

unfoldable pub mix_all : List ℕ → ℕ → ℕ
unfolding mix
mix_all [] h = h
mix_all (b ∷ bs) h = mix_all bs (mix h b)

unfoldable pub hash : FlowKey → ℕ
unfolding mix mix_all
hash k =
    let h = mix_all k.dst_ip (mix_all k.src_ip fnv_offset) in
    let h = mix h (k.src_port / 2 ^ 8 % 2 ^ 8) in
    let h = mix h (bit_and k.src_port 0xff % 2 ^ 8) in
    let h = mix h (k.dst_port / 2 ^ 8 % 2 ^ 8) in
    let h = mix h (bit_and k.dst_port 0xff % 2 ^ 8) in mix h k.protocol
