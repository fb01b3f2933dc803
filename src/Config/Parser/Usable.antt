-- ===== src/Config/Parser/Usable.antt =====
-- The configurations that src/config/config_parser.cpp lets through.
use Prim.Native.String.{String}
use packetpipe.Common.{
  ℕ, ◌^◌, ◌<◌, ◌≡◌, refl, sym, subst, inl, inr, Bool, true, false, List, [], ◌∷◌, All, arith,
}
use packetpipe.Common.Result.{ok}
use packetpipe.Common.Text.{
  chars_of, read_digits, int_of, signed, after_space, skip_space, stoi_codes, stoi,
}
use packetpipe.Config.{AppConfig, defaults}
use packetpipe.Config.Parser.{
  Flag, pcap, iface, filter, flow_timeout, max_flows, stats_interval, kafka_brokers, kafka_topic,
  kafka_conf, schema_registry_url, sr_buffer, metrics_port, log_level, parse,
}
use packetpipe.Config.Parser.Flags.{IsLevel}
use packetpipe.Config.Parser.Settings.{count_in, count, Fits, apply, apply_all, HasOneSource}
use packetpipe.Config.Parser.Accepted.{parse_iff}

abbrev pub IsInt : ℕ → Type 0
IsInt n = (0 < n) × (n < 2 ^ 31)

abbrev pub IsUsable : AppConfig → Type 0
IsUsable cfg =
    IsInt cfg.flow_timeout_sec
    × IsInt cfg.max_flows
    × IsInt cfg.stats_interval_sec
    × IsInt cfg.sr_buffer_size
    × ((0 < cfg.metrics_port) × (cfg.metrics_port < 2 ^ 16))
    × IsLevel cfg.log_level

int_of-lt : (neg : Bool) (n : ℕ) → count_in (int_of neg n) < 2 ^ 31
unfolding int_of
int_of-lt true n = ground arith
int_of-lt false n = ground arith

signed-lt : (neg : Bool) (cs : List ℕ) → count_in (signed neg cs) < 2 ^ 31
unfolding signed
signed-lt neg [] = omega arith
signed-lt neg (c ∷ cs) = ground (arith, int_of-lt neg (read_digits (c ∷ cs) 0))

after_space-lt : (cs : List ℕ) → count_in (after_space cs) < 2 ^ 31
unfolding after_space
after_space-lt [] = omega arith
after_space-lt (c ∷ cs) =
    ground (arith, signed-lt true cs, signed-lt false cs, signed-lt false (c ∷ cs))

-- An `int`.
pub count-lt : (s : String) → count s < 2 ^ 31
unfolding stoi stoi_codes
count-lt s = after_space-lt (skip_space (chars_of s))

apply-IsUsable :
    (f : Flag) (v : String) (cfg : AppConfig)
    → Fits (f, v)
    → IsUsable cfg
    → IsUsable (apply (f, v) cfg)
apply-IsUsable pcap v cfg fits h = h
apply-IsUsable iface v cfg fits h = h
apply-IsUsable filter v cfg fits h = h
apply-IsUsable flow_timeout v cfg fits h = ((fits, count-lt v), h.1, h.2, h.3, h.4, h.5)
apply-IsUsable max_flows v cfg fits h = (h.0, (fits, count-lt v), h.2, h.3, h.4, h.5)
apply-IsUsable stats_interval v cfg fits h = (h.0, h.1, (fits, count-lt v), h.3, h.4, h.5)
apply-IsUsable kafka_brokers v cfg fits h = h
apply-IsUsable kafka_topic v cfg fits h = h
apply-IsUsable kafka_conf v cfg fits h = h
apply-IsUsable schema_registry_url v cfg fits h = h
apply-IsUsable sr_buffer v cfg fits h = (h.0, h.1, h.2, (fits, count-lt v), h.4, h.5)
apply-IsUsable metrics_port v cfg fits h = (h.0, h.1, h.2, h.3, fits, h.5)
apply-IsUsable log_level v cfg fits h = (h.0, h.1, h.2, h.3, h.4, fits)

apply_all-IsUsable :
    (ss : List (Flag × String)) (cfg : AppConfig)
    → All Fits ss
    → IsUsable cfg
    → IsUsable (apply_all ss cfg)
apply_all-IsUsable [] cfg fits h = h
apply_all-IsUsable ((f, v) ∷ ss) cfg fits h =
    apply_all-IsUsable ss (apply (f, v) cfg) fits.1 (apply-IsUsable f v cfg fits.0 h)

defaults-IsUsable : (version : String) → IsUsable (defaults version)
unfolding defaults
defaults-IsUsable version =
    (omega arith, omega arith, omega arith, omega arith, omega arith, inr (inr (inl refl)))

-- Every configuration that the parser returns has positive counts of type `int`, a port from 1 to
-- 65535, a known log level, and exactly one of the two sources.
pub parse-IsUsable :
    (version program : String) (args : List String) (cfg : AppConfig)
    → parse version (program ∷ args) ≡ ok cfg
    → IsUsable cfg × HasOneSource cfg
parse-IsUsable version program args cfg h =
    let (ss, fits, w, end, source) = (parse_iff version program args cfg).0 h in
    (
      subst IsUsable (sym end)
          (apply_all-IsUsable ss (defaults version) fits (defaults-IsUsable version)),
      source,
    )
