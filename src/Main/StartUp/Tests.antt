-- ===== src/Main/StartUp/Tests.antt =====
-- The exit code of src/main.cpp with small surroundings.
use Prim.Native.String.{String}
use packetpipe.Common.{ℕ, ◌≡◌, ◌↔◌, ◌⊎◌, refl, true, false, none, some, List, [], ◌∷◌}
use packetpipe.Common.Int.{pos}
use packetpipe.Common.Text.{stoi, stoi_codes}
use packetpipe.Common.Chars.{split_last}
use packetpipe.Config.{defaults}
use packetpipe.Metrics.{Metrics, registry}
use packetpipe.Packets.{ParsedPacket}
use packetpipe.Packets.Sources.{SourceError, finished, thrown}
use packetpipe.Main.StartUp.{Surroundings, Parts, main}
use packetpipe.Main.StartUp.Exit.{Starts, RunEnds, main_iff}

-- Everything is in place, and the file holds no frame.
abbrev around : Surroundings ℕ
around = record {
  registry = record {
    get = λ host port path. some (record { status = 200; body = [] });
    parse_json = λ body. some 7;
    contains_id = λ j. true;
    get_id = λ j. some (pos j);
  };
  conf = record {
    accepts = λ key val. true;
    accepts_dr_cb = true;
    creates = true;
    lines_of = λ path. none;
  };
  pcap = record {
    cap_net_raw = false;
    opened = true;
    compiled = true;
    filter_set = true;
    nonblocking = true;
  };
  frames = [];
  dispatches = [];
  listens = true;
  schema_opens = true;
  schema_compiles = true;
}

abbrev argv : List String
argv = "packetpipe" ∷ "--pcap" ∷ "a.pcap" ∷ []

abbrev unchanged : ParsedPacket → Metrics → Metrics
unchanged pkt m = m

codes_test :
    (main around unchanged none "1" argv (λ parts. registry) ≡ some 0)
    × (main around unchanged none "1" ("p" ∷ "--iface" ∷ "eth0" ∷ []) (λ parts. registry) ≡ some 1)
    × (main around unchanged none "1"
          ("p" ∷ "--kafka-conf" ∷ "k" ∷ "--pcap" ∷ "a" ∷ [])
          (λ parts. registry)
        ≡ some 1)
    × (main (record around { listens = false }) unchanged none "1" argv (λ parts. registry)
        ≡ some 1)
unfolding main stoi stoi_codes split_last defaults
codes_test = (refl, refl, refl, refl)

main_iff_example :
    ((main around unchanged none "1" argv (λ parts. registry) ≡ some 0) ↔ (
      (parts : Parts) × RunEnds around unchanged none "1" argv (λ parts. registry) parts finished))
    × ((main around unchanged none "1" argv (λ parts. registry) ≡ some 1) ↔ (
        ((parts : Parts) → ¬ (Starts around "1" argv parts))
        ⊎ ((parts : Parts) × (x : SourceError) × RunEnds around unchanged none "1" argv
              (λ parts. registry)
              parts
              (thrown x))))
main_iff_example = main_iff around unchanged none "1" argv (λ parts. registry)
