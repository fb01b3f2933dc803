-- ===== src/Events/FlowKeyHash/Apart.antt =====
-- Which keys the hash of src/events/flow_key.hpp keeps apart.
use packetpipe.Common.{
  ℕ, ◌*◌, ◌/◌, ◌%◌, ◌^◌, ◌<◌, ◌≡◌, ◌≢◌, refl, sym, ap, subst, ◌∙◌, List, [], ◌∷◌, ◌++◌, bit_and,
  bit_xor, arith, All, All-append,
}
use packetpipe.Common.Xor.{bit_xor-lt, bit_xor-injective, bit_xor-injective_second}
use packetpipe.Events.{FlowKey}
use packetpipe.Events.FlowKeyHash.{fnv_offset, fnv_prime, mix, mix_all, hash}

-- The prime is odd, so multiplication by it loses nothing.
times_prime :
    (x y : ℕ) → x < 2 ^ 64 → y < 2 ^ 64 → x * fnv_prime % 2 ^ 64 ≡ y * fnv_prime % 2 ^ 64 → x ≡ y
times_prime x y p q e = omega arith

abbrev pub IsByte : ℕ → Type 0
IsByte b = b < 2 ^ 8

pub record IsKey (k : FlowKey) : Type 0 where
  pub src_ip : All IsByte k.src_ip
  pub dst_ip : All IsByte k.dst_ip
  pub protocol : k.protocol < 2 ^ 8

-- The bytes that are hashed, in their order.
abbrev pub bytes_of : FlowKey → List ℕ
bytes_of k =
    k.src_ip
    ++ (k.dst_ip
        ++ (k.src_port / 2 ^ 8 % 2 ^ 8
            ∷ bit_and k.src_port 0xff % 2 ^ 8
            ∷ k.dst_port / 2 ^ 8 % 2 ^ 8
            ∷ bit_and k.dst_port 0xff % 2 ^ 8
            ∷ k.protocol
            ∷ []))

-- The bytes of the two keys differ in one place, and nowhere else.
pub record DifferOnce (k k' : FlowKey) : Type 0 where
  pub front : List ℕ
  pub back : List ℕ
  pub byte : ℕ
  pub other : ℕ
  pub apart : byte ≢ other
  pub first : bytes_of k ≡ front ++ (byte ∷ back)
  pub second : bytes_of k' ≡ front ++ (other ∷ back)

All-behind : (xs ys : List ℕ) → All IsByte (xs ++ ys) → All IsByte ys
All-behind [] ys h = h
All-behind (x ∷ xs) ys h = All-behind xs ys h.1

bytes_of-IsByte : (k : FlowKey) → IsKey k → All IsByte (bytes_of k)
bytes_of-IsByte k h = All-append IsByte k.src_ip _ h.src_ip (
    All-append IsByte k.dst_ip _ h.dst_ip
      (omega arith, (omega arith, (omega arith, (omega arith, (h.protocol, tt))))))

mix_all-append : (xs ys : List ℕ) (h : ℕ) → mix_all (xs ++ ys) h ≡ mix_all ys (mix_all xs h)
unfolding mix_all
mix_all-append [] ys h = refl
mix_all-append (x ∷ xs) ys h = mix_all-append xs ys (mix h x)

hash_lem : (k : FlowKey) → hash k ≡ mix_all (bytes_of k) fnv_offset
unfolding hash mix_all
hash_lem k =
    sym (
      mix_all-append k.src_ip _ fnv_offset
      ∙ mix_all-append k.dst_ip _ (mix_all k.src_ip fnv_offset))

mix-lt : (h b : ℕ) → mix h b < 2 ^ 64
unfolding mix
mix-lt h b = omega arith

mix_all-lt : (bs : List ℕ) (h : ℕ) → h < 2 ^ 64 → mix_all bs h < 2 ^ 64
unfolding mix_all
mix_all-lt [] h p = p
mix_all-lt (b ∷ bs) h p = mix_all-lt bs (mix h b) (mix-lt h b)

mix-injective : (x y b : ℕ) → x < 2 ^ 64 → y < 2 ^ 64 → IsByte b → mix x b ≡ mix y b → x ≡ y
unfolding mix
mix-injective x y b p q r e = bit_xor-injective x y b (
    times_prime (bit_xor x b) (bit_xor y b) (bit_xor-lt 64 x b p (omega (arith, r)))
      (bit_xor-lt 64 y b q (omega (arith, r))) e)

mix-injective_second : (h b c : ℕ) → h < 2 ^ 64 → IsByte b → IsByte c → mix h b ≡ mix h c → b ≡ c
unfolding mix
mix-injective_second h b c p q r e = bit_xor-injective_second h b c (
    times_prime (bit_xor h b) (bit_xor h c) (bit_xor-lt 64 h b p (omega (arith, q)))
      (bit_xor-lt 64 h c p (omega (arith, r))) e)

mix_all-injective :
    (bs : List ℕ) (x y : ℕ)
    → All IsByte bs
    → x < 2 ^ 64
    → y < 2 ^ 64
    → mix_all bs x ≡ mix_all bs y
    → x ≡ y
unfolding mix_all
mix_all-injective [] x y w p q e = e
mix_all-injective (b ∷ bs) x y w p q e =
    mix-injective x y b p q w.0
      (mix_all-injective bs (mix x b) (mix y b) w.1 (mix-lt x b) (mix-lt y b) e)

-- The hash is a number of 64 bits, and two keys whose bytes differ in exactly one place
-- never have the same hash: the addresses, the two ports with the high byte first, the protocol.
pub hash-DifferOnce :
    (k k' : FlowKey) → IsKey k → IsKey k' → DifferOnce k k' → (hash k < 2 ^ 64) × (hash k ≢ hash k')
unfolding mix_all
hash-DifferOnce k k' h h' d =
    let w = All-behind d.front _ (subst (λ bs. All IsByte bs) d.first (bytes_of-IsByte k h)) in
    let w' = All-behind d.front _ (subst (λ bs. All IsByte bs) d.second (bytes_of-IsByte k' h')) in
    let m = mix_all d.front fnv_offset in
    let p = mix_all-lt d.front fnv_offset (omega arith) in
    let hashed =
      hash_lem k ∙ ap (λ bs. mix_all bs fnv_offset) d.first ∙ mix_all-append d.front _ fnv_offset in
    let hashed' =
      hash_lem k'
      ∙ ap (λ bs. mix_all bs fnv_offset) d.second
      ∙ mix_all-append d.front _ fnv_offset in
    (
      omega (arith, hash_lem k, mix_all-lt (bytes_of k) fnv_offset (omega arith)),
      λ e. d.apart (
          mix-injective_second m d.byte d.other p w.0 w'.0 (
            mix_all-injective d.back (mix m d.byte) (mix m d.other) w.1 (mix-lt m d.byte)
              (mix-lt m d.other) (sym hashed ∙ e ∙ hashed'))),
    )
