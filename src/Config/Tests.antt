-- ===== src/Config/Tests.antt =====
-- The parser of src/config/config_parser.cpp on small command lines.
use Prim.Native.String.{String}
use packetpipe.Common.{◌≡◌, refl, ◌↔◌, List, [], ◌∷◌, All, ltb, if◌then◌else◌}
use packetpipe.Common.Text.{stoi}
use packetpipe.Common.Result.{ok, err}
use packetpipe.Config.{AppConfig, defaults}
use packetpipe.Config.Parser.{
  usage, port_range, two_sources, no_source, not_integer, needs_value, Flag, parse,
  parse_positive_int,
}
use packetpipe.Config.Parser.Settings.{
  count, Fits, apply_all, written, HasOneSource, parse_positive_int_lem,
}
use packetpipe.Config.Parser.Accepted.{parse_iff}
use packetpipe.Config.Parser.Usable.{IsUsable, parse-IsUsable}

abbrev args : List String
args =
    "--pcap" ∷ "a.pcap" ∷ "--max-flows" ∷ "7" ∷ "--metrics-port" ∷ "65535" ∷ "--max-flows" ∷ " +12x"
    ∷ []

abbrev cfg : AppConfig
unfolding defaults
cfg = record (defaults "1.0.0") { pcap_file = "a.pcap"; max_flows = 12; metrics_port = 65_535 }

parse_test : parse "1.0.0" ("packetpipe" ∷ args) ≡ ok cfg
unfolding parse defaults stoi
parse_test = refl

errors_test :
    (parse "1" [] ≡ err no_source)
    × (parse "1" ("p" ∷ "--iface" ∷ "x" ∷ "-h" ∷ []) ≡ err usage)
    × (parse "1" ("p" ∷ "--iface" ∷ "x" ∷ "--pcap" ∷ "y" ∷ []) ≡ err two_sources)
    × (parse "1" ("p" ∷ "--iface" ∷ []) ≡ err (needs_value "--iface"))
    × (parse "1" ("p" ∷ "--sr-buffer" ∷ "0" ∷ []) ≡ err (not_integer "--sr-buffer" "0"))
    × (parse "1" ("p" ∷ "--metrics-port" ∷ "65536" ∷ []) ≡ err port_range)
unfolding parse defaults stoi
errors_test = (refl, refl, refl, refl, refl, refl)

parse_positive_int_lem_example :
    parse_positive_int "-3" "--max-flows"
    ≡ (if ltb 0 (count "-3") then ok (count "-3") else err (not_integer "--max-flows" "-3"))
parse_positive_int_lem_example = parse_positive_int_lem "-3" "--max-flows"

parse_iff_example : (parse "1.0.0" ("packetpipe" ∷ args) ≡ ok cfg) ↔ (
    (ss : List (Flag × String)) × All Fits ss
    × (args ≡ written ss)
    × (cfg ≡ apply_all ss (defaults "1.0.0"))
    × HasOneSource cfg)
unfolding defaults
parse_iff_example = parse_iff "1.0.0" "packetpipe" args cfg

parse-IsUsable_example : IsUsable cfg × HasOneSource cfg
unfolding defaults
parse-IsUsable_example = parse-IsUsable "1.0.0" "packetpipe" args cfg parse_test
