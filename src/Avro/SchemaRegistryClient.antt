-- ===== src/Avro/SchemaRegistryClient.antt =====
-- src/avro/schema_registry_client.cpp: the URL of the registry and the lookup of the schema's id. A
-- text is the list of its characters. `Registry` is what lies outside the repository: the HTTP
-- client's answer for a host, a port and a path, and the JSON library, with `none` where a value is
-- missing or of another type and the library throws. `J` is its type of values.
pub mod Url
mod Tests
use Prim.Native.String.{String}
use packetpipe.Common.{
  ℕ, Bool, true, false, Option, none, some, List, [], ◌∷◌, ◌++◌, drop, ◌==◌, ◌&&◌, if◌then◌else◌,
}
use packetpipe.Common.Chars.{split_last}
use packetpipe.Common.Int.{ℤ, pos}
use packetpipe.Common.Result.{Result, ok, err, ◌>>=◌}
use packetpipe.Common.Text.{chars_of, stoi_codes}

pub record Response : Type 0 where
  pub status : ℕ
  pub body : List ℕ

pub record Registry (J : Type 0) : Type 0 where
  pub get : List ℕ → ℤ → List ℕ → Option Response
  pub parse_json : List ℕ → Option J
  pub contains_id : J → Bool
  pub get_id : J → Option ℤ

-- `bad_port` is thrown by std::stoi, `bad_json` and `id_type` by the JSON library; the others are
-- SchemaRegistryUnavailableError.
pub data RegistryError : Type 0 where
  invalid_url unreachable missing_id bad_port bad_json id_type : RegistryError
  bad_status : ℕ → RegistryError

unfoldable pub starts_scheme_end : List ℕ → Bool
starts_scheme_end (a ∷ b ∷ c ∷ rest) = a == b':' && b == b'/' && c == b'/'
starts_scheme_end (a ∷ b ∷ []) = false
starts_scheme_end (a ∷ []) = false
starts_scheme_end [] = false

-- `url.substr(url.find("://") + 3)`, or `npos`.
unfoldable pub after_scheme : List ℕ → Option (List ℕ)
unfolding starts_scheme_end
after_scheme [] = none
after_scheme (c ∷ cs) =
    let rest = after_scheme cs in
    if starts_scheme_end (c ∷ cs) then some (drop 3 (c ∷ cs)) else rest

unfoldable pub with_port : List ℕ → Option ℤ → Result RegistryError (List ℕ × ℤ)
with_port host none = err bad_port
with_port host (some port) = ok (host, port)

-- What stands before and behind the last colon, if there is one.
unfoldable pub host_and_port : List ℕ → Option (List ℕ × List ℕ) → Result RegistryError (List ℕ × ℤ)
unfolding with_port
host_and_port host_port none = ok (host_port, pos 80)
host_and_port host_port (some (host, port)) = with_port host (stoi_codes port)

unfoldable pub parse_after : Option (List ℕ) → Result RegistryError (List ℕ × ℤ)
unfolding host_and_port
parse_after none = err invalid_url
parse_after (some host_port) = host_and_port host_port (split_last b':' host_port)

unfoldable pub parse_url : List ℕ → Result RegistryError (List ℕ × ℤ)
unfolding parse_after after_scheme
parse_url url = parse_after (after_scheme url)

-- `"/subjects/" + subject + "/versions/latest"`
unfoldable pub path_of : List ℕ → List ℕ
path_of subject = chars_of "/subjects/" ++ subject ++ chars_of "/versions/latest"

module _ {J : Type 0} (registry : Registry J) where
  unfoldable pub checked_id : Option ℤ → Result RegistryError ℤ
  checked_id none = err id_type
  checked_id (some id) = ok id

  unfoldable pub read_json : Option J → Result RegistryError ℤ
  unfolding checked_id
  read_json none = err bad_json
  read_json (some j) =
      if registry.contains_id j then checked_id (registry.get_id j) else err missing_id

  unfoldable pub check_response : Option Response → Result RegistryError ℤ
  unfolding read_json
  check_response none = err unreachable
  check_response (some res) =
      if res.status == 200
      then read_json (registry.parse_json res.body)
      else err (bad_status res.status)

  -- The constructor: the schema id.
  unfoldable pub look_up : List ℕ → List ℕ → Result RegistryError ℤ
  unfolding check_response path_of parse_url
  look_up url subject =
      parse_url url >>= λ (host, port). check_response (registry.get host port (path_of subject))
