-- ===== src/Avro/FlowId.antt =====
-- The flow id of src/avro/avro_serializer.cpp names its flow.
mod Tests
use Prim.Native.String.{String, ◌++◌}
use mathlib.Core.List.{◌++◌ as join, append_assoc}
use packetpipe.Common.{
  ℕ, ◌<◌, ◌^◌, ◌≡◌, ◌≢◌, ◌↔◌, ◌⊎◌, length-drop, take-drop, take_all, All-take, All-drop, All-append,
  refl, sym, ap, ap₂, subst, zero, suc, ◌≤◌, ◌∙◌, Bool, true, false, List, [], ◌∷◌, take, drop,
  length, All, Bool-cases, inl, inr, Option, some, none, arith,
}
use packetpipe.Common.Text.{chars_of, chars_of-injective, chars_of-append}
use packetpipe.Common.Chars.{Lacks, around_last}
use packetpipe.Common.Decimal.{to_string, to_string-Lacks, to_string-injective}
use packetpipe.Events.{FlowKey, bytes_eq, bytes_eq_iff, key_eq, key_eq_iff}
use packetpipe.Avro.{Libraries, is_ipv4_mapped, ip_array_to_string, bracketed, flow_id}

pub record IsAddress (ip : List ℕ) : Type 0 where
  pub bytes : All (λ b. b < 2 ^ 8) ip
  pub sixteen : length ip ≡ 16

pub record IsFlow (k : FlowKey) : Type 0 where
  pub src_ip : IsAddress k.src_ip
  pub dst_ip : IsAddress k.dst_ip

-- What POSIX says of the texts: different addresses of a family have different ones, no text has a
-- `-` in it, and a dotted one has no bracket.
pub record IsNtop (lib : Libraries) : Type 0 where
  pub dash4 : (a : List ℕ) → length a ≡ 4 → Lacks b'-' (chars_of (lib.inet_ntop4 a))
  pub dash6 : (a : List ℕ) → length a ≡ 16 → Lacks b'-' (chars_of (lib.inet_ntop6 a))
  pub bracket4 : (a : List ℕ) → length a ≡ 4 → Lacks b'[' (chars_of (lib.inet_ntop4 a))
  pub apart4 :
      (a b : List ℕ)
      → length a ≡ 4
      → length b ≡ 4
      → All (λ x. x < 2 ^ 8) a
      → All (λ x. x < 2 ^ 8) b
      → lib.inet_ntop4 a ≡ lib.inet_ntop4 b
      → a ≡ b
  pub apart6 :
      (a b : List ℕ)
      → length a ≡ 16
      → length b ≡ 16
      → All (λ x. x < 2 ^ 8) a
      → All (λ x. x < 2 ^ 8) b
      → lib.inet_ntop6 a ≡ lib.inet_ntop6 b
      → a ≡ b

module _ (lib : Libraries) (ntop : IsNtop lib) where
  dotted :
      (ip : List ℕ)
      → is_ipv4_mapped ip ≡ true
      → chars_of (bracketed lib ip) ≡ chars_of (lib.inet_ntop4 (take 4 (drop 12 ip)))
  unfolding bracketed ip_array_to_string
  dotted ip p = rw p refl

  in_brackets :
      (ip : List ℕ)
      → is_ipv4_mapped ip ≡ false
      → chars_of (bracketed lib ip) ≡ b'[' ∷ join (chars_of (lib.inet_ntop6 ip)) (b']' ∷ [])
  unfolding bracketed ip_array_to_string
  in_brackets ip p = rw p (
      chars_of-append "[" (lib.inet_ntop6 ip ++ "]")
      ∙ ap (λ r. b'[' ∷ r) (chars_of-append (lib.inet_ntop6 ip) "]"))

  last_four : (ip : List ℕ) → IsAddress ip → take 4 (drop 12 ip) ≡ drop 12 ip
  last_four ip h =
      let n = h.sixteen in let d = length-drop 12 ip in take_all 4 (drop 12 ip) (omega arith)

  four_left : (ip : List ℕ) → IsAddress ip → length (take 4 (drop 12 ip)) ≡ 4
  four_left ip h = rw (last_four ip h, length-drop 12 ip, h.sixteen) refl

  bracketed-Lacks : (ip : List ℕ) → IsAddress ip → Lacks b'-' (chars_of (bracketed lib ip))
  bracketed-Lacks ip h = elim (Bool-cases (is_ipv4_mapped ip)) [
    | inl p ↦ rw (dotted ip p) (ntop.dash4 _ (four_left ip h))
    | inr p ↦
        rw (in_brackets ip p)
          (λ e. ground arith, All-append _ _ _ (ntop.dash6 ip h.sixteen) (λ e. ground arith, tt))
  ]

  no_bracket :
      (a b : List ℕ)
      → IsAddress a
      → is_ipv4_mapped a ≡ true
      → is_ipv4_mapped b ≡ false
      → chars_of (bracketed lib a) ≢ chars_of (bracketed lib b)
  no_bracket a b h p q e =
      (subst (Lacks b'[') (sym (dotted a p) ∙ e ∙ in_brackets b q)
          (ntop.bracket4 (take 4 (drop 12 a)) (four_left a h))).0
        refl

  same_dotted :
      (a b : List ℕ)
      → IsAddress a
      → IsAddress b
      → is_ipv4_mapped a ≡ true
      → is_ipv4_mapped b ≡ true
      → chars_of (bracketed lib a) ≡ chars_of (bracketed lib b)
      → a ≡ b
  unfolding is_ipv4_mapped
  same_dotted a b h k p q e =
      let texts = chars_of-injective _ _ (sym (dotted a p) ∙ e ∙ dotted b q) in
      let backs =
        ntop.apart4 (take 4 (drop 12 a)) (take 4 (drop 12 b)) (four_left a h) (four_left b k)
          (All-take 4 _ _ (All-drop 12 _ a h.bytes)) (All-take 4 _ _ (All-drop 12 _ b k.bytes))
          texts in
      let fronts : take 12 a ≡ take 12 b = (bytes_eq_iff _ _).0 p ∙ sym ((bytes_eq_iff _ _).0 q) in
      sym (take-drop 12 a)
      ∙ ap₂ (λ r s. join r s) fronts (sym (last_four a h) ∙ backs ∙ last_four b k)
      ∙ take-drop 12 b

  same_bracketed :
      (a b : List ℕ)
      → IsAddress a
      → IsAddress b
      → is_ipv4_mapped a ≡ false
      → is_ipv4_mapped b ≡ false
      → chars_of (bracketed lib a) ≡ chars_of (bracketed lib b)
      → a ≡ b
  same_bracketed a b h k p q e =
      let inside = sym (in_brackets a p) ∙ e ∙ in_brackets b q in
      let texts =
        (around_last b']' (b'[' ∷ chars_of (lib.inet_ntop6 a)) (b'[' ∷ chars_of (lib.inet_ntop6 b))
          [] [] tt tt inside).0 in
      ntop.apart6 a b h.sixteen k.sixteen h.bytes k.bytes
        (chars_of-injective _ _ (ap (λ r. drop 1 r) texts))

  bracketed-injective :
      (a b : List ℕ)
      → IsAddress a
      → IsAddress b
      → chars_of (bracketed lib a) ≡ chars_of (bracketed lib b)
      → a ≡ b
  bracketed-injective a b h k e = elim (Bool-cases (is_ipv4_mapped a)) [
    | inl p ↦ elim (Bool-cases (is_ipv4_mapped b)) [
      | inl q ↦ same_dotted a b h k p q e
      | inr q ↦ absurd (no_bracket a b h p q e)
    ]
    | inr p ↦ elim (Bool-cases (is_ipv4_mapped b)) [
      | inl q ↦ absurd (no_bracket b a k q p (sym e))
      | inr q ↦ same_bracketed a b h k p q e
    ]
  ]

  flow_id-shape :
      (k : FlowKey)
      → chars_of (flow_id lib k)
        ≡ join
            (join
              (join
                (join (chars_of (bracketed lib k.src_ip)) (b':' ∷ chars_of (to_string k.src_port)))
                (b'-' ∷ chars_of (bracketed lib k.dst_ip)))
              (b':' ∷ chars_of (to_string k.dst_port)))
            (b'/' ∷ chars_of (to_string k.protocol))
  unfolding flow_id
  flow_id-shape k = simp (chars_of-append, append_assoc)

  flow_id-injective :
      (k k' : FlowKey) → IsFlow k → IsFlow k' → flow_id lib k ≡ flow_id lib k' → k ≡ k'
  flow_id-injective k k' h h' e =
      let slash : (b'/' < b'0') ⊎ (b'9' < b'/') = omega arith in
      let colon : (b':' < b'0') ⊎ (b'9' < b':') = omega arith in
      let protocols =
        around_last b'/' _ _ _ _ (to_string-Lacks b'/' k.protocol slash)
          (to_string-Lacks b'/' k'.protocol slash)
          (sym (flow_id-shape k) ∙ ap chars_of e ∙ flow_id-shape k') in
      let dst_ports =
        around_last b':' _ _ _ _ (to_string-Lacks b':' k.dst_port colon)
          (to_string-Lacks b':' k'.dst_port colon) protocols.0 in
      let dst_ips =
        around_last b'-' _ _ _ _ (bracketed-Lacks k.dst_ip h.dst_ip)
          (bracketed-Lacks k'.dst_ip h'.dst_ip) dst_ports.0 in
      let src =
        around_last b':' _ _ _ _ (to_string-Lacks b':' k.src_port colon)
          (to_string-Lacks b':' k'.src_port colon) dst_ips.0 in
      let src_port = to_string-injective k.src_port k'.src_port src.1 in
      let dst_port = to_string-injective k.dst_port k'.dst_port dst_ports.1 in
      let protocol = to_string-injective k.protocol k'.protocol protocols.1 in
      let src_ip = bracketed-injective k.src_ip k'.src_ip h.src_ip h'.src_ip src.0 in
      let dst_ip = bracketed-injective k.dst_ip k'.dst_ip h.dst_ip h'.dst_ip dst_ips.1 in
      ground arith

  -- Where `inet_ntop` keeps the addresses of a family apart and writes no `-`, nor a `[` in a dotted
  -- address: two keys whose addresses are of 16 bytes have the same flow id just when `operator==`
  -- finds them equal.
  pub flow_id_iff :
      (k k' : FlowKey)
      → IsFlow k
      → IsFlow k'
      → (flow_id lib k ≡ flow_id lib k') ↔ (key_eq k k' ≡ true)
  flow_id_iff k k' h h' = (
    λ e. (key_eq_iff k k').1 (flow_id-injective k k' h h' e),
    λ e. ap (flow_id lib) ((key_eq_iff k k').0 e),
  )
