-- ===== src/Avro/FlowId/Tests.antt =====
-- Flow ids where `inet_ntop` writes the bytes in decimal, each with a separator behind it.
use Prim.Native.String.{String, ◌++◌ as glue}
use packetpipe.Common.{
  ℕ, ◌<◌, ◌≡◌, ◌≢◌, ◌↔◌, ◌⊎◌, some, refl, sym, ap, ap₂, ◌∙◌, true, List, [], ◌∷◌, length,
  All-append, replicate, arith, ◌++◌,
}
use packetpipe.Common.Text.{chars_of, chars_of-append, chars_of-injective}
use packetpipe.Common.Chars.{Lacks, around_first}
use packetpipe.Common.Decimal.{to_string, to_string-Lacks, to_string-injective}
use packetpipe.Events.{FlowKey, key_eq, bytes_eq}
use packetpipe.Avro.{Libraries, flow_id, bracketed, ip_array_to_string, is_ipv4_mapped}
use packetpipe.Avro.FlowId.{IsAddress, IsNtop, flow_id_iff}

abbrev dotted : List ℕ → String
dotted [] = ""
dotted (b ∷ bytes) = glue (to_string b) (glue "." (dotted bytes))

chars_of-dotted :
    (b : ℕ) (bytes : List ℕ)
    → chars_of (dotted (b ∷ bytes)) ≡ chars_of (to_string b) ++ b'.' ∷ chars_of (dotted bytes)
chars_of-dotted b bytes =
    chars_of-append (to_string b) (glue "." (dotted bytes))
    ∙ ap (λ r. chars_of (to_string b) ++ r) (chars_of-append "." (dotted bytes))

dotted-Lacks :
    (c : ℕ)
    → (c < b'0') ⊎ (b'9' < c)
    → b'.' ≢ c
    → (bytes : List ℕ) → Lacks c (chars_of (dotted bytes))
dotted-Lacks c h d [] = tt
dotted-Lacks c h d (b ∷ bytes) =
    rw (chars_of-dotted b bytes)
      (All-append (λ x. x ≢ c) _ _ (to_string-Lacks c b h) (d, dotted-Lacks c h d bytes))

dotted-injective : (a b : List ℕ) → length a ≡ length b → dotted a ≡ dotted b → a ≡ b
dotted-injective [] [] n e = refl
dotted-injective [] (y ∷ b) n e = absurd (ground arith)
dotted-injective (x ∷ a) [] n e = absurd (ground arith)
dotted-injective (x ∷ a) (y ∷ b) n e =
    let dot : (b'.' < b'0') ⊎ (b'9' < b'.') = omega arith in
    let parts =
      around_first b'.' _ _ _ _ (to_string-Lacks b'.' x dot) (to_string-Lacks b'.' y dot)
        (sym (chars_of-dotted x a) ∙ ap chars_of e ∙ chars_of-dotted y b) in
    ap₂ (λ c cs. c ∷ cs) (to_string-injective x y parts.0)
      (dotted-injective a b (omega arith) (chars_of-injective (dotted a) (dotted b) parts.1))

abbrev libraries : Libraries
libraries = record {
  inet_ntop4 = dotted;
  inet_ntop6 = dotted;
  field_count = 13;
  encode = λ datum. some (1 ∷ 2 ∷ 3 ∷ []);
}

libraries-IsNtop : IsNtop libraries
libraries-IsNtop = record {
  dash4 = λ a n. dotted-Lacks b'-' (omega arith) (λ e. ground arith) a;
  dash6 = λ a n. dotted-Lacks b'-' (omega arith) (λ e. ground arith) a;
  bracket4 = λ a n. dotted-Lacks b'[' (omega arith) (λ e. ground arith) a;
  apart4 = λ a b n m p q e. dotted-injective a b (n ∙ sym m) e;
  apart6 = λ a b n m p q e. dotted-injective a b (n ∙ sym m) e;
}

abbrev key : FlowKey
key = record {
  src_ip = replicate 10 0 ++ 0xff ∷ 0xff ∷ 10 ∷ 0 ∷ 0 ∷ 1 ∷ [];
  dst_ip = replicate 16 1;
  src_port = 443;
  dst_port = 50_123;
  protocol = 6;
}

-- The other direction of the same connection.
abbrev reply : FlowKey
reply = record {
  src_ip = key.dst_ip;
  dst_ip = key.src_ip;
  src_port = key.dst_port;
  dst_port = key.src_port;
  protocol = 6;
}

key_test : flow_id libraries key ≡ "10.0.0.1.:443-[1.1.1.1.1.1.1.1.1.1.1.1.1.1.1.1.]:50123/6"
unfolding flow_id bracketed ip_array_to_string is_ipv4_mapped bytes_eq to_string
key_test = refl

mapped-IsAddress : IsAddress key.src_ip
mapped-IsAddress = record { bytes = ground arith; sixteen = refl }

ones-IsAddress : IsAddress key.dst_ip
ones-IsAddress = record { bytes = ground arith; sixteen = refl }

flow_id_iff_example : (flow_id libraries key ≡ flow_id libraries reply) ↔ (key_eq key reply ≡ true)
flow_id_iff_example =
    flow_id_iff libraries libraries-IsNtop key reply
      (record { src_ip = mapped-IsAddress; dst_ip = ones-IsAddress })
      (record { src_ip = ones-IsAddress; dst_ip = mapped-IsAddress })
