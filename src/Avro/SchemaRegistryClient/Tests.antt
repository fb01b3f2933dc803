-- ===== src/Avro/SchemaRegistryClient/Tests.antt =====
-- The registry client of src/avro/schema_registry_client.cpp on small addresses.
use packetpipe.Common.{◌≡◌, ◌↔◌, refl, true, Option, some, [], arith, ℕ}
use packetpipe.Common.Chars.{split_last}
use packetpipe.Common.Int.{pos}
use packetpipe.Common.Result.{ok, err}
use packetpipe.Common.Text.{chars_of, stoi_codes}
use packetpipe.Avro.SchemaRegistryClient.{
  Response, Registry, invalid_url, bad_port, parse_url, look_up,
}
use packetpipe.Avro.SchemaRegistryClient.Url.{Address, url_of, HasId, look_up_iff}

parse_url_test :
    (parse_url (chars_of "http://localhost:8081") ≡ ok (chars_of "localhost", pos 8_081))
    × (parse_url (chars_of "http://registry") ≡ ok (chars_of "registry", pos 80))
    × (parse_url (chars_of "localhost:8081") ≡ err invalid_url)
    × (parse_url (chars_of "http://registry:x") ≡ err bad_port)
unfolding parse_url stoi_codes split_last
parse_url_test = (refl, refl, refl, refl)

-- An address of IPv6 without a port is cut at its last colon.
ipv6_test : parse_url (chars_of "http://[::1]") ≡ ok (chars_of "[:", pos 1)
unfolding parse_url stoi_codes split_last
ipv6_test = refl

-- A registry that knows id 7; its JSON values are numbers.
abbrev seven : Registry ℕ
seven = record {
  get = λ host port path. some (record { status = 200; body = [] });
  parse_json = λ body. some 7;
  contains_id = λ j. true;
  get_id = λ j. some (pos j);
}

abbrev address : Address
address = record { scheme = chars_of "http"; host = chars_of "sr"; port = some (chars_of "8081") }

look_up_iff_example : (look_up seven (url_of address) (chars_of "s") ≡ ok (pos 7)) ↔ (
    (res : Response) × (◌≡◌ {A = Option Response}
      (some (record { status = 200; body = [] }))
      (some res))
    × (res.status ≡ 200)
    × HasId seven (some 7) (pos 7))
unfolding stoi_codes
look_up_iff_example =
    look_up_iff seven address (pos 8_081) (chars_of "s") (pos 7) (omega arith) refl
