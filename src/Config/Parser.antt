-- ===== src/Config/Parser.antt =====
-- src/config/config_parser.cpp: the command line. An exception is an `err` with what its message says;
-- the usage text behind every message is left out. The chain of comparisons with the flags is
-- `flag_of`, and a flag's branch is `set_option`.
pub mod Flags
pub mod Settings
pub mod Accepted
pub mod Usable
use Prim.Native.String.{String}
use text.Mathlib.Text.{◌==◌}
use packetpipe.Common.{
  ℕ, ◌%◌, ◌^◌, Bool, true, false, not, ◌&&◌, ◌||◌, Option, none, some, List, [], ◌∷◌, ltb,
  if◌then◌else◌,
}
use packetpipe.Common.Int.{ℤ, pos, leb_ℤ, pos_part}
use packetpipe.Common.Result.{Result, ok, err, ◌>>=◌, catch}
use packetpipe.Common.Text.{stoi}
use packetpipe.Config.{AppConfig, defaults}

pub data ConfigError : Type 0 where
  usage stoi_failed port_range bad_level no_source two_sources : ConfigError
  needs_value not_positive unknown_argument : String → ConfigError
  not_integer : String → String → ConfigError

-- The flags that take a value.
pub data Flag : Type 0 where
  pcap iface filter flow_timeout max_flows stats_interval kafka_brokers kafka_topic : Flag
  kafka_conf schema_registry_url sr_buffer metrics_port log_level : Flag

-- What an argument in a flag's place is.
pub data Argument : Type 0 where
  help unknown : Argument
  takes_value : Flag → Argument

unfoldable pub same : String → String → Bool
same s t = s == t

unfoldable pub flag_of : String → Argument
unfolding same
flag_of arg =
    if same arg "--help" || same arg "-h"
    then help
    else if same arg "--pcap"
    then takes_value pcap
    else if same arg "--iface"
    then takes_value iface
    else if same arg "--filter"
    then takes_value filter
    else if same arg "--flow-timeout"
    then takes_value flow_timeout
    else if same arg "--max-flows"
    then takes_value max_flows
    else if same arg "--stats-interval"
    then takes_value stats_interval
    else if same arg "--kafka-brokers"
    then takes_value kafka_brokers
    else if same arg "--kafka-topic"
    then takes_value kafka_topic
    else if same arg "--kafka-conf"
    then takes_value kafka_conf
    else if same arg "--schema-registry-url"
    then takes_value schema_registry_url
    else if same arg "--sr-buffer"
    then takes_value sr_buffer
    else if same arg "--metrics-port"
    then takes_value metrics_port
    else if same arg "--log-level"
    then takes_value log_level
    else unknown

-- `std::stoi` throws, or gives a number that is tested inside the `try`.
unfoldable pub checked_int : String → Option ℤ → Result ConfigError ℕ
checked_int flag none = err stoi_failed
checked_int flag (some v) = if leb_ℤ v (pos 0) then err (not_positive flag) else ok (pos_part v)

unfoldable pub parse_positive_int : String → String → Result ConfigError ℕ
unfolding checked_int
parse_positive_int s flag = catch (checked_int flag (stoi s)) (λ e. err (not_integer flag s))

unfoldable pub is_level : String → Bool
unfolding same
is_level l = same l "error" || same l "warn" || same l "info" || same l "debug"

-- The branch of a flag, with its value.
unfoldable pub set_option : Flag → String → String → AppConfig → Result ConfigError AppConfig
unfolding parse_positive_int is_level
set_option pcap arg v cfg = ok (record cfg { pcap_file = v })
set_option iface arg v cfg = ok (record cfg { iface = v })
set_option filter arg v cfg = ok (record cfg { bpf_filter = v })
set_option flow_timeout arg v cfg = do
  n ← parse_positive_int v arg
  ok (record cfg { flow_timeout_sec = n })
set_option max_flows arg v cfg = do n ← parse_positive_int v arg; ok (record cfg { max_flows = n })
set_option stats_interval arg v cfg = do
  n ← parse_positive_int v arg
  ok (record cfg { stats_interval_sec = n })
set_option kafka_brokers arg v cfg = ok (record cfg { kafka_brokers = v })
set_option kafka_topic arg v cfg = ok (record cfg { kafka_topic = v })
set_option kafka_conf arg v cfg = ok (record cfg { kafka_conf_file = v })
set_option schema_registry_url arg v cfg = ok (record cfg { schema_registry_url = v })
set_option sr_buffer arg v cfg = do
  n ← parse_positive_int v arg
  ok (record cfg { sr_buffer_size = n })
set_option metrics_port arg v cfg = do
  p ← parse_positive_int v arg
  if ltb 65_535 p then err port_range else ok (record cfg { metrics_port = p % 2 ^ 16 })
set_option log_level arg v cfg =
    if is_level v then ok (record cfg { log_level = v }) else err bad_level

-- One turn of the loop where another argument follows, which `next_arg` takes as the value.
unfoldable pub take_option : Argument → String → String → AppConfig → Result ConfigError AppConfig
unfolding set_option
take_option help arg v cfg = err usage
take_option unknown arg v cfg = err (unknown_argument arg)
take_option (takes_value f) arg v cfg = set_option f arg v cfg

-- The turn for the last argument: `next_arg` finds no value.
unfoldable pub take_last : Argument → String → Result ConfigError AppConfig
take_last help arg = err usage
take_last unknown arg = err (unknown_argument arg)
take_last (takes_value f) arg = err (needs_value arg)

-- The loop from an argument on.
unfoldable pub parse_loop : List String → AppConfig → Result ConfigError AppConfig
unfolding flag_of take_option take_last
parse_loop [] cfg = ok cfg
parse_loop (arg ∷ []) cfg = take_last (flag_of arg) arg
parse_loop (arg ∷ v ∷ rest) cfg =
    take_option (flag_of arg) arg v cfg >>= λ cfg'. parse_loop rest cfg'

unfoldable pub is_empty : String → Bool
unfolding same
is_empty s = same s ""

-- Exactly one source is required.
unfoldable pub check_source : AppConfig → Result ConfigError AppConfig
unfolding is_empty
check_source cfg =
    if is_empty cfg.pcap_file && is_empty cfg.iface
    then err no_source
    else if not (is_empty cfg.pcap_file) && not (is_empty cfg.iface)
    then err two_sources
    else ok cfg

-- `argv[0]` is the program's name.
unfoldable pub parse : String → List String → Result ConfigError AppConfig
unfolding parse_loop check_source
parse version [] = check_source (defaults version)
parse version (program ∷ args) = parse_loop args (defaults version) >>= check_source
