-- ===== src/Main/StartUp.antt =====
-- src/main.cpp from its start to its exit code: the order in which the parts are made, which of them
-- may throw, and what the process returns. `Surroundings` is what lies outside the repository.
mod Exit
mod Tests
use Prim.Native.String.{String}
use packetpipe.Common.{ℕ, Bool, true, false, not, Option, none, some, List, if◌then◌else◌}
use packetpipe.Common.Int.{ℤ}
use packetpipe.Common.Result.{Result, ok, err, ◌>>=◌, ◌>>◌}
use packetpipe.Common.Text.{chars_of}
use packetpipe.Config.{AppConfig}
use packetpipe.Config.Parser.{ConfigError, is_empty, parse}
use packetpipe.Avro.SchemaRegistryClient.{Registry, RegistryError, look_up}
use packetpipe.Kafka.KafkaProducer.Settings.{Conf, KafkaInitError, Setting, create}
use packetpipe.Metrics.{Metrics}
use packetpipe.Packets.{ParsedPacket}
use packetpipe.Packets.Sources.{
  CapturedFrame, Answers, Dispatch, Ending, finished, running, faulted, thrown, Ended, run_file,
  run_live, describe_file, describe_live,
}

-- The libraries' answers, the frames that libpcap delivers from a file or an interface, whether the
-- metrics server can listen, and whether the schema's file can be opened and compiled.
pub record Surroundings (J : Type 0) : Type 0 where
  pub registry : Registry J
  pub conf : Conf
  pub pcap : Answers
  pub frames : List CapturedFrame
  pub dispatches : List Dispatch
  pub listens : Bool
  pub schema_opens : Bool
  pub schema_compiles : Bool

pub data StartError : Type 0 where
  bad_arguments : ConfigError → StartError
  no_schema_id : RegistryError → StartError
  no_producer : KafkaInitError → StartError
  not_listening schema_lost schema_invalid : StartError

unfoldable pub throwing {ℓ} :
    {E : Type 0} {A : Type ℓ} → (E → StartError) → Result E A → Result StartError A
throwing as_error (ok a) = ok a
throwing as_error (err e) = err (as_error e)

unfoldable pub check : Bool → StartError → Result StartError (Unit {0})
check true e = ok tt
check false e = err e

-- What the parts are made of.
pub record Parts : Type 0 where
  pub cfg : AppConfig
  pub schema_id : ℤ
  pub settings : List Setting

-- `--pcap` goes before `--iface`.
unfoldable pub reads_file : AppConfig → Bool
unfolding is_empty
reads_file cfg = not (is_empty cfg.pcap_file)

unfoldable pub describe : AppConfig → String
unfolding reads_file describe_file describe_live
describe cfg = if reads_file cfg then describe_file cfg.pcap_file else describe_live cfg.iface

-- `none` is a process that runs on, or whose behaviour is undefined.
unfoldable pub exit_of : Ending → Option ℕ
exit_of finished = some 0
exit_of running = none
exit_of faulted = none
exit_of (thrown e) = some 1

module _ {J : Type 0} (around : Surroundings J) where
  -- The parts up to the Kafka producer.
  unfoldable pub start_up : String → List String → Result StartError Parts
  unfolding parse throwing check look_up create
  start_up version argv = do
    cfg ← throwing bad_arguments (parse version argv)
    check around.listens not_listening
    id ← throwing no_schema_id (
        look_up around.registry (chars_of cfg.schema_registry_url)
          (chars_of "packetpipe-FlowEvent-value"))
    check around.schema_opens schema_lost
    check around.schema_compiles schema_invalid
    settings ← throwing no_producer (create around.conf cfg)
    ok (record { cfg = cfg; schema_id = id; settings = settings })

module _ {J S : Type 0} (around : Surroundings J) (callback : ParsedPacket → S → S)
    (registry : Option ((Metrics → Metrics) → S → S)) where
  -- The source that the configuration names, made and run.
  unfoldable pub run_source : AppConfig → S → Ended S
  unfolding reads_file run_file run_live
  run_source cfg s =
      if reads_file cfg
      then run_file callback registry around.pcap cfg.bpf_filter around.frames s
      else run_live callback registry around.pcap cfg.bpf_filter around.dispatches s

  unfoldable pub exit_after : (Parts → S) → Result StartError Parts → Option ℕ
  unfolding run_source exit_of
  exit_after initial (err e) = some 1
  exit_after initial (ok parts) = exit_of (run_source parts.cfg (initial parts)).ending

  unfoldable pub main : String → List String → (Parts → S) → Option ℕ
  unfolding start_up exit_after
  main version argv initial = exit_after initial (start_up around version argv)
