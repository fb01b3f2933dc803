-- ===== src/Config/Parser/Flags.antt =====
-- The spelling of the flags of src/config/config_parser.cpp.
use Prim.Native.String.{String}
use text.Mathlib.TextEquality.{eq_iff}
use packetpipe.Common.{◌||◌, ◌∙◌, ap, ◌≡◌, refl, ◌↔◌, ◌⊎◌, Bool, true, false, arith, if◌then◌else◌}
use packetpipe.Config.Parser.{
  Flag, pcap, iface, filter, flow_timeout, max_flows, stats_interval, kafka_brokers, kafka_topic,
  kafka_conf, schema_registry_url, sr_buffer, metrics_port, log_level, Argument, help, takes_value,
  flag_of, is_level, is_empty, same,
}

abbrev pub spelling : Flag → String
spelling pcap = "--pcap"
spelling iface = "--iface"
spelling filter = "--filter"
spelling flow_timeout = "--flow-timeout"
spelling max_flows = "--max-flows"
spelling stats_interval = "--stats-interval"
spelling kafka_brokers = "--kafka-brokers"
spelling kafka_topic = "--kafka-topic"
spelling kafka_conf = "--kafka-conf"
spelling schema_registry_url = "--schema-registry-url"
spelling sr_buffer = "--sr-buffer"
spelling metrics_port = "--metrics-port"
spelling log_level = "--log-level"

pub flag_of-spelling : (f : Flag) → flag_of (spelling f) ≡ takes_value f
unfolding flag_of
flag_of-spelling pcap = refl
flag_of-spelling iface = refl
flag_of-spelling filter = refl
flag_of-spelling flow_timeout = refl
flag_of-spelling max_flows = refl
flag_of-spelling stats_interval = refl
flag_of-spelling kafka_brokers = refl
flag_of-spelling kafka_topic = refl
flag_of-spelling kafka_conf = refl
flag_of-spelling schema_registry_url = refl
flag_of-spelling sr_buffer = refl
flag_of-spelling metrics_port = refl
flag_of-spelling log_level = refl

takes_value-injective : (f g : Flag) → takes_value f ≡ takes_value g → f ≡ g
takes_value-injective f g e = cc

-- One comparison of the chain.
compared :
    (arg : String) (g : Flag) (b : Bool) (f : Flag) (otherwise : Argument)
    → (b ≡ true → arg ≡ spelling f)
    → (if b then takes_value f else otherwise) ≡ takes_value g
    → (otherwise ≡ takes_value g → arg ≡ spelling g)
    → arg ≡ spelling g
compared arg g true f otherwise found h next =
    found refl ∙ ap spelling (takes_value-injective f g h)
compared arg g false f otherwise found h next = next h

not_help :
    (b : Bool) (g : Flag) (otherwise : Argument)
    → (if b then help else otherwise) ≡ takes_value g
    → otherwise ≡ takes_value g
not_help true g otherwise h = cc
not_help false g otherwise h = h

pub flag_of-inv : (arg : String) (g : Flag) → flag_of arg ≡ takes_value g → arg ≡ spelling g
unfolding flag_of
flag_of-inv arg g h =
    let h = not_help (same arg "--help" || same arg "-h") g _ h in
    compared arg g (same arg (spelling pcap)) pcap _ (eq_iff arg (spelling pcap)).0 h λ h.
      compared arg g (same arg (spelling iface)) iface _ (eq_iff arg (spelling iface)).0 h λ h.
        compared arg g (same arg (spelling filter)) filter _ (eq_iff arg (spelling filter)).0 h λ h.
          compared arg g (same arg (spelling flow_timeout)) flow_timeout _
            (eq_iff arg (spelling flow_timeout)).0 h
            λ h.
              compared arg g (same arg (spelling max_flows)) max_flows _
                (eq_iff arg (spelling max_flows)).0 h
                λ h.
                  compared arg g (same arg (spelling stats_interval)) stats_interval _
                    (eq_iff arg (spelling stats_interval)).0 h
                    λ h.
                      compared arg g (same arg (spelling kafka_brokers)) kafka_brokers _
                        (eq_iff arg (spelling kafka_brokers)).0 h
                        λ h.
                          compared arg g (same arg (spelling kafka_topic)) kafka_topic _
                            (eq_iff arg (spelling kafka_topic)).0 h
                            λ h.
                              compared arg g (same arg (spelling kafka_conf)) kafka_conf _
                                (eq_iff arg (spelling kafka_conf)).0 h
                                λ h.
                                  compared arg g (same arg (spelling schema_registry_url))
                                    schema_registry_url _
                                    (eq_iff arg (spelling schema_registry_url)).0 h
                                    λ h.
                                      compared arg g (same arg (spelling sr_buffer)) sr_buffer _
                                        (eq_iff arg (spelling sr_buffer)).0 h
                                        λ h.
                                          compared arg g (same arg (spelling metrics_port))
                                            metrics_port _ (eq_iff arg (spelling metrics_port)).0 h
                                            λ h.
                                              compared arg g (same arg (spelling log_level))
                                                log_level _ (eq_iff arg (spelling log_level)).0 h
                                                λ h. cc

-- The levels that the parser knows.
abbrev pub IsLevel : String → Type 0
IsLevel l = (l ≡ "error") ⊎ (l ≡ "warn") ⊎ (l ≡ "info") ⊎ (l ≡ "debug")

pub is_level_iff : (l : String) → (is_level l ≡ true) ↔ IsLevel l
unfolding is_level
is_level_iff l =
    ground (arith, eq_iff l "error", eq_iff l "warn", eq_iff l "info", eq_iff l "debug")

pub is_empty_iff : (s : String) → (is_empty s ≡ true) ↔ (s ≡ "")
unfolding is_empty
is_empty_iff s = eq_iff s ""
