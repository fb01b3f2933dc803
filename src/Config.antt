-- ===== src/Config.antt =====
-- src/config/app_config.hpp: the configuration that the components read. An `int` field is a ℕ:
-- the parser lets only positive values through.
pub mod Parser
mod Tests
use Prim.Native.String.{String}
use packetpipe.Common.{ℕ}

pub record AppConfig : Type 0 where
  pub pcap_file : String
  pub iface : String
  pub bpf_filter : String
  pub flow_timeout_sec : ℕ
  pub max_flows : ℕ
  pub stats_interval_sec : ℕ
  pub kafka_brokers : String
  pub kafka_topic : String
  pub kafka_conf_file : String
  pub schema_registry_url : String
  pub sr_buffer_size : ℕ
  pub metrics_port : ℕ
  pub log_level : String
  pub version : String

-- The member initialisers; `version` is what the build injects.
unfoldable pub defaults : String → AppConfig
defaults version = record {
  pcap_file = "";
  iface = "";
  bpf_filter = "";
  flow_timeout_sec = 60;
  max_flows = 100_000;
  stats_interval_sec = 30;
  kafka_brokers = "localhost:9092";
  kafka_topic = "packetpipe.flows";
  kafka_conf_file = "";
  schema_registry_url = "http://localhost:8081";
  sr_buffer_size = 1_000;
  metrics_port = 9090;
  log_level = "info";
  version = version;
}
