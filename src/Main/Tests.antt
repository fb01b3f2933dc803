-- ===== src/Main/Tests.antt =====
-- A run of the program of src/main.cpp on two frames.
use packetpipe.Common.{ℕ, ◌≡◌, ◌↔◌, ◌<◌, refl, false, none, some, List, [], ◌∷◌, arith}
use packetpipe.Common.Result
use packetpipe.Common.Text.{stoi}
use packetpipe.Config.{AppConfig, defaults}
use packetpipe.Config.Parser.{parse}
use packetpipe.Events.EventQueue.{fresh}
use packetpipe.Kafka.KafkaProducer.{Librdkafka}
use packetpipe.Kafka.KafkaProducer.Journal.{journaled}
use packetpipe.Packets.Outcome.{ok, ◌>>=◌}
use packetpipe.Main.{Program, default_event_queue_capacity, begin, perform_all, timer_interval_ms}
use packetpipe.Main.Samples.{broker, steps, some_event}
use packetpipe.Main.Sound.{Recorded, recorded_buffer}
use packetpipe.Main.Drained.{turns, IsDelivered, perform_all-IsDelivered}
use packetpipe.Main.Timer.{SweepsIn, timer_interval_ms_lem}

-- The same broker while it is out of reach.
abbrev out_of_reach : Librdkafka ℕ ℕ ℕ
out_of_reach = record broker { rd_produce = λ key payload taken. (false, taken) }

perform_all-IsDelivered_example :
    (p : Program Recorded (ℕ × List (ℕ × ℕ))) × ((perform_all recorded_buffer
          (journaled out_of_reach)
          (λ e. some 1)
          (λ k. k.src_port)
          steps
          (begin (defaults "1.0.0") (fresh default_event_queue_capacity some_event, []) (0, []))
        >>= λ p'.
            perform_all recorded_buffer
              (journaled broker)
              (λ e. some 1)
              (λ k. k.src_port)
              (turns 65_536)
              p')
      ≡ ok p)
    × IsDelivered (λ e. some 1) (λ k. k.src_port) p
perform_all-IsDelivered_example =
    perform_all-IsDelivered out_of_reach broker (λ e. some 1) (λ k. k.src_port)
      (λ key payload taken. refl) (defaults "1.0.0") some_event 0 steps 65_536 (omega arith)
      (omega arith)

-- The defaults, for an interface.
abbrev cfg : AppConfig
unfolding defaults
cfg = record (defaults "1.0.0") { iface = "eth0" }

cfg_parsed : parse "1.0.0" ("packetpipe" ∷ "--iface" ∷ "eth0" ∷ []) ≡ Result.ok cfg
unfolding parse defaults stoi
cfg_parsed = refl

timer_interval_ms_lem_example :
    ((ms : ℕ) → timer_interval_ms cfg ≡ some ms → SweepsIn cfg ms)
    × ((timer_interval_ms cfg ≡ none)
        ↔ ((4_294_967 < cfg.flow_timeout_sec) × (4_294_967 < cfg.stats_interval_sec)))
unfolding defaults
timer_interval_ms_lem_example =
    timer_interval_ms_lem "1.0.0" "packetpipe" ("--iface" ∷ "eth0" ∷ []) cfg cfg_parsed
