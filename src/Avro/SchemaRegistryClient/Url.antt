-- ===== src/Avro/SchemaRegistryClient/Url.antt =====
-- The URLs that src/avro/schema_registry_client.cpp takes, and what it asks of the registry.
use mathlib.Core.List.{append-nil}
use packetpipe.Common.{
  ℕ, ◌≡◌, ◌≢◌, inl, inr, Bool-cases, ==_iff, subst, refl, ap, ◌∙◌, ◌↔◌, true, false, Option, none,
  some, List, [], ◌∷◌, ◌++◌, ◌==◌, arith,
}
use packetpipe.Common.Chars.{Lacks, split_last, split_last_absent, split_last_lem}
use packetpipe.Common.Int.{ℤ, pos}
use packetpipe.Common.Result.{ok, ok-injective}
use packetpipe.Common.Text.{stoi_codes}
use packetpipe.Avro.SchemaRegistryClient.{
  Response, Registry, starts_scheme_end, after_scheme, with_port, host_and_port, parse_after,
  parse_url, path_of, checked_id, read_json, check_response, look_up,
}

-- An address as it is written: the port's text is optional.
pub record Address : Type 0 where
  pub scheme : List ℕ
  pub host : List ℕ
  pub port : Option (List ℕ)

abbrev pub port_text : Option (List ℕ) → List ℕ
port_text none = []
port_text (some ds) = b':' ∷ ds

abbrev pub url_of : Address → List ℕ
url_of a = a.scheme ++ b':' ∷ b'/' ∷ b'/' ∷ (a.host ++ port_text a.port)

-- The port that is asked for: 80 is the default.
abbrev pub IsPort : Option (List ℕ) → ℤ → Type 0
IsPort none n = n ≡ pos 80
IsPort (some ds) n = stoi_codes ds ≡ some n

-- There is no colon in the scheme, nor in the port; nor in the host, if it is all that follows.
abbrev pub IsPlain : Address → Type 0
IsPlain a = Lacks b':' a.scheme × Lacks b':' (elim a.port [ none ↦ a.host | some ds ↦ ds ])

starts_scheme_end_lem : (c : ℕ) (s : List ℕ) → c ≢ b':' → starts_scheme_end (c ∷ s) ≡ false
unfolding starts_scheme_end
starts_scheme_end_lem c [] h = refl
starts_scheme_end_lem c (x ∷ []) h = refl
starts_scheme_end_lem c (x ∷ y ∷ s) h = ground arith

after_scheme_lem :
    (s rest : List ℕ) → Lacks b':' s → after_scheme (s ++ b':' ∷ b'/' ∷ b'/' ∷ rest) ≡ some rest
unfolding after_scheme starts_scheme_end
after_scheme_lem [] rest h = refl
after_scheme_lem (c ∷ s) rest h =
    rw (starts_scheme_end_lem c (s ++ b':' ∷ b'/' ∷ b'/' ∷ rest) h.0, after_scheme_lem s rest h.1)
      refl

host_and_port_lem :
    (host : List ℕ) (port : Option (List ℕ)) (n : ℤ)
    → Lacks b':' (elim port [ none ↦ host | some ds ↦ ds ])
    → IsPort port n
    → host_and_port (host ++ port_text port) (split_last b':' (host ++ port_text port))
      ≡ ok (host, n)
unfolding host_and_port with_port
host_and_port_lem host none n h e = rw (append-nil host, split_last_absent b':' host h, e) refl
host_and_port_lem host (some ds) n h e = rw (split_last_lem b':' host ds h, e) refl

pub parse_url-url_of :
    (a : Address) (n : ℤ) → IsPlain a → IsPort a.port n → parse_url (url_of a) ≡ ok (a.host, n)
unfolding parse_url parse_after
parse_url-url_of a n (s, h) e =
    ap parse_after (after_scheme_lem a.scheme (a.host ++ port_text a.port) s)
    ∙ host_and_port_lem a.host a.port n h e

module _ {J : Type 0} (registry : Registry J) where
  -- What the answer must be for an id to come of it.
  abbrev pub HasId : Option J → ℤ → Type 0
  HasId o id =
      (j : J) × (o ≡ some j) × (registry.contains_id j ≡ true) × (registry.get_id j ≡ some id)

  checked_id_lem : (o : Option ℤ) (id : ℤ) → (checked_id registry o ≡ ok id) ↔ (o ≡ some id)
  unfolding checked_id
  checked_id_lem none id = (λ e. cc, λ e. cc)
  checked_id_lem (some x) id = (λ e. ap some (ok-injective e), λ e. cc)

  read_json_lem : (o : Option J) (id : ℤ) → (read_json registry o ≡ ok id) ↔ HasId o id
  unfolding read_json
  read_json_lem none id = (λ e. cc, λ (j, e, c, k). cc)
  read_json_lem (some j) id = elim (Bool-cases (registry.contains_id j)) [
    | inl c ↦ rw c (λ e. (j, refl, c, (checked_id_lem _ id).0 e), λ (j', e, c', k). cc)
    | inr c ↦ rw c (λ e. cc, λ (j', e, c', k). cc)
  ]

  check_response_lem :
      (o : Option Response) (id : ℤ)
      → (check_response registry o ≡ ok id) ↔ (
          (res : Response) × (o ≡ some res)
          × (res.status ≡ 200)
          × HasId (registry.parse_json res.body) id)
  unfolding check_response
  check_response_lem none id = (λ e. cc, λ (r, e, c, k). cc)
  check_response_lem (some r) id = elim (Bool-cases (r.status == 200)) [
    | inl c ↦ rw c (
      λ e. (r, refl, (==_iff r.status 200).0 c, (read_json_lem _ id).0 e),
      λ (r', e, s, k). (read_json_lem _ id).1 (
          subst {A = Response} (λ r. HasId (registry.parse_json r.body) id) {x = r'} {y = r} (cc e)
            k),
    )
    | inr c ↦ rw c (
      λ e. cc,
      λ (r', e, s, k).
          absurd (ground (arith, c, s, ap (λ (r : Response). r.status) {x = r} {y = r'} (cc e))),
    )
  ]

  -- The constructor gives an id exactly if the host and the port that the URL spells answer the path of
  -- the subject's latest version with HTTP 200 and a JSON value that has this id. The URL is a scheme,
  -- `://`, a host, and, optionally, a colon and a port; the port is 80 if there is none; there is no
  -- colon in the scheme or behind the last one that separates the port, and none in a host alone.
  pub look_up_iff :
      (a : Address) (n : ℤ) (subject : List ℕ) (id : ℤ)
      → IsPlain a
      → IsPort a.port n
      → (look_up registry (url_of a) subject ≡ ok id) ↔ (
          (res : Response) × (registry.get a.host n (path_of subject) ≡ some res)
          × (res.status ≡ 200)
          × HasId (registry.parse_json res.body) id)
  unfolding look_up
  look_up_iff a n subject id h p =
      rw (look_up, parse_url-url_of a n h p)
        (check_response_lem (registry.get a.host n (path_of subject)) id)
