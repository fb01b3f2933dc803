-- ===== src/Main/Timer.antt =====
-- How often the timer thread of src/main.cpp sweeps the flow table.
use Prim.Native.String.{String}
use packetpipe.Common.{ℕ, ◌*◌, ◌≤◌, ◌<◌, ◌≡◌, ◌↔◌, none, some, List, ◌∷◌, arith}
use packetpipe.Common.Result.{ok}
use packetpipe.Config.{AppConfig}
use packetpipe.Config.Parser.{parse}
use packetpipe.Config.Parser.Usable.{IsUsable, parse-IsUsable}
use packetpipe.Main.{timer_interval_ms}

-- What the timer thread should do with a configuration: `ms` is at least half a second and at most
-- half of the flow timeout and half of the interval of the heartbeats.
abbrev pub SweepsIn : AppConfig → ℕ → Type 0
SweepsIn cfg ms =
    (500 ≤ ms) × (2 * ms ≤ 1_000 * cfg.flow_timeout_sec) × (2 * ms ≤ 1_000 * cfg.stats_interval_sec)

interval_lem :
    (cfg : AppConfig)
    → IsUsable cfg
    → ((ms : ℕ) → timer_interval_ms cfg ≡ some ms → SweepsIn cfg ms)
      × ((timer_interval_ms cfg ≡ none)
          ↔ ((4_294_967 < cfg.flow_timeout_sec) × (4_294_967 < cfg.stats_interval_sec)))
unfolding timer_interval_ms
interval_lem cfg h = (λ ms e. ground (arith, h.0, h.2), ground (arith, h.0, h.2))

-- With every configuration that the parser returns, the time that the timer sleeps between two sweeps is
-- at least half a second, and at most half the flow timeout and at most half the interval of the
-- heartbeats; but the product that gives the time overflows an `int` exactly if both settings are
-- above 4294967 seconds.
pub timer_interval_ms_lem :
    (version program : String) (args : List String) (cfg : AppConfig)
    → parse version (program ∷ args) ≡ ok cfg
    → ((ms : ℕ) → timer_interval_ms cfg ≡ some ms → SweepsIn cfg ms)
      × ((timer_interval_ms cfg ≡ none)
          ↔ ((4_294_967 < cfg.flow_timeout_sec) × (4_294_967 < cfg.stats_interval_sec)))
timer_interval_ms_lem version program args cfg h =
    interval_lem cfg (parse-IsUsable version program args cfg h).0
