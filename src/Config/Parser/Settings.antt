-- ===== src/Config/Parser/Settings.antt =====
-- What one flag of src/config/config_parser.cpp with its value means, and that its branch does it.
use Prim.Native.String.{String}
use packetpipe.Common.{
  ℕ, ◌%◌, ◌^◌, ◌<◌, ◌≡◌, ◌≢◌, refl, sym, ap, ◌∙◌, ◌⊎◌, Bool, true, false, Option, none, some, List,
  [], ◌∷◌, arith, ltb, ltb→lt, if◌then◌else◌,
}
use packetpipe.Common.Int.{ℤ, pos, negsuc, pos_part}
use packetpipe.Common.Result.{ok, err, ok-injective, ◌>>=◌, >>=-ok_inv, catch}
use packetpipe.Common.Text.{stoi}
use packetpipe.Config.{AppConfig}
use packetpipe.Config.Parser.Flags.{spelling, IsLevel, is_level_iff}
use packetpipe.Config.Parser.{
  ConfigError, not_integer, port_range, bad_level, Flag, pcap, iface, filter, flow_timeout,
  max_flows, stats_interval, kafka_brokers, kafka_topic, kafka_conf, schema_registry_url, sr_buffer,
  metrics_port, log_level, is_level, checked_int, parse_positive_int, set_option,
}

-- The number that a text stands for where a count is wanted, and 0 where it stands for none.
abbrev pub count_in : Option ℤ → ℕ
count_in none = 0
count_in (some v) = pos_part v

abbrev pub count : String → ℕ
count s = count_in (stoi s)

-- The values that a flag takes.
abbrev pub Fits : Flag × String → Type 0
Fits (flow_timeout, v) = 0 < count v
Fits (max_flows, v) = 0 < count v
Fits (stats_interval, v) = 0 < count v
Fits (sr_buffer, v) = 0 < count v
Fits (metrics_port, v) = (0 < count v) × (count v < 2 ^ 16)
Fits (log_level, v) = IsLevel v
Fits (pcap, v) = Unit
Fits (iface, v) = Unit
Fits (filter, v) = Unit
Fits (kafka_brokers, v) = Unit
Fits (kafka_topic, v) = Unit
Fits (kafka_conf, v) = Unit
Fits (schema_registry_url, v) = Unit

abbrev pub apply : Flag × String → AppConfig → AppConfig
apply (pcap, v) cfg = record cfg { pcap_file = v }
apply (iface, v) cfg = record cfg { iface = v }
apply (filter, v) cfg = record cfg { bpf_filter = v }
apply (flow_timeout, v) cfg = record cfg { flow_timeout_sec = count v }
apply (max_flows, v) cfg = record cfg { max_flows = count v }
apply (stats_interval, v) cfg = record cfg { stats_interval_sec = count v }
apply (kafka_brokers, v) cfg = record cfg { kafka_brokers = v }
apply (kafka_topic, v) cfg = record cfg { kafka_topic = v }
apply (kafka_conf, v) cfg = record cfg { kafka_conf_file = v }
apply (schema_registry_url, v) cfg = record cfg { schema_registry_url = v }
apply (sr_buffer, v) cfg = record cfg { sr_buffer_size = count v }
apply (metrics_port, v) cfg = record cfg { metrics_port = count v }
apply (log_level, v) cfg = record cfg { log_level = v }

-- Later settings win.
abbrev pub apply_all : List (Flag × String) → AppConfig → AppConfig
apply_all [] cfg = cfg
apply_all (s ∷ ss) cfg = apply_all ss (apply s cfg)

-- The settings as arguments.
abbrev pub written : List (Flag × String) → List String
written [] = []
written (s ∷ ss) = spelling s.0 ∷ s.1 ∷ written ss

abbrev pub HasOneSource : AppConfig → Type 0
HasOneSource cfg =
    ((cfg.pcap_file ≢ "") × (cfg.iface ≡ "")) ⊎ ((cfg.pcap_file ≡ "") × (cfg.iface ≢ ""))

-- A count is read as the positive number in front of the text, and every other text ends in the
-- same error: it asks for an integer, also where the text is an integer that is not positive.
pub parse_positive_int_lem :
    (s flag : String)
    → parse_positive_int s flag
      ≡ (if ltb 0 (count s) then ok (count s) else err (not_integer flag s))
unfolding parse_positive_int
parse_positive_int_lem s flag = caught (stoi s)
  where
    caught :
        (v : Option ℤ)
        → catch (checked_int flag v) (λ e. err (not_integer flag s))
          ≡ (if ltb 0 (count_in v) then ok (count_in v) else err (not_integer flag s))
    caught none = refl
    caught (some (pos n)) = ground arith
    caught (some (negsuc n)) = ground arith

counted : (s flag : String) → 0 < count s → parse_positive_int s flag ≡ ok (count s)
counted s flag h = parse_positive_int_lem s flag ∙ ground arith

-- What is read is the count, and it is positive.
counted-inv :
    (s flag : String) (n : ℕ) → parse_positive_int s flag ≡ ok n → (0 < count s) × (n ≡ count s)
counted-inv s flag n h =
    let e = sym (parse_positive_int_lem s flag) ∙ h in
    let k = λ (w : ltb 0 (count s) ≡ true). ltb→lt 0 (count s) w in ground arith

pub set_option-ok :
    (f : Flag) (arg v : String) (cfg : AppConfig)
    → Fits (f, v)
    → set_option f arg v cfg ≡ ok (apply (f, v) cfg)
unfolding set_option
set_option-ok pcap arg v cfg h = refl
set_option-ok iface arg v cfg h = refl
set_option-ok filter arg v cfg h = refl
set_option-ok flow_timeout arg v cfg h = rw (counted v arg h) refl
set_option-ok max_flows arg v cfg h = rw (counted v arg h) refl
set_option-ok stats_interval arg v cfg h = rw (counted v arg h) refl
set_option-ok kafka_brokers arg v cfg h = refl
set_option-ok kafka_topic arg v cfg h = refl
set_option-ok kafka_conf arg v cfg h = refl
set_option-ok schema_registry_url arg v cfg h = refl
set_option-ok sr_buffer arg v cfg h = rw (counted v arg h) refl
set_option-ok metrics_port arg v cfg h = rw (counted v arg h.0) (ground (arith, h.1))
set_option-ok log_level arg v cfg h = rw ((is_level_iff v).1 h) refl

positive-inv :
    (f : ℕ → AppConfig) (v arg : String) (cfg' : AppConfig)
    → (parse_positive_int v arg >>= λ n. ok (f n)) ≡ ok cfg'
    → (0 < count v) × (cfg' ≡ f (count v))
positive-inv f v arg cfg' h =
    let (n, e, e') = >>=-ok_inv (parse_positive_int v arg) (λ n. ok (f n)) h in
    let (p, q) = counted-inv v arg n e in (p, sym (ok-injective e') ∙ ap f q)

guarded :
    (b : Bool) (e : ConfigError) (cfg cfg' : AppConfig)
    → (if b then err e else ok cfg) ≡ ok cfg'
    → (b ≡ false) × (cfg' ≡ cfg)
guarded true e cfg cfg' h = cc
guarded false e cfg cfg' h = (refl, sym (ok-injective h))

wanted :
    (b : Bool) (e : ConfigError) (cfg cfg' : AppConfig)
    → (if b then ok cfg else err e) ≡ ok cfg'
    → (b ≡ true) × (cfg' ≡ cfg)
wanted true e cfg cfg' h = (refl, sym (ok-injective h))
wanted false e cfg cfg' h = cc

pub set_option-inv :
    (f : Flag) (arg v : String) (cfg cfg' : AppConfig)
    → set_option f arg v cfg ≡ ok cfg'
    → Fits (f, v) × (cfg' ≡ apply (f, v) cfg)
unfolding set_option
set_option-inv pcap arg v cfg cfg' h = (tt, sym (ok-injective h))
set_option-inv iface arg v cfg cfg' h = (tt, sym (ok-injective h))
set_option-inv filter arg v cfg cfg' h = (tt, sym (ok-injective h))
set_option-inv flow_timeout arg v cfg cfg' h = positive-inv _ v arg cfg' h
set_option-inv max_flows arg v cfg cfg' h = positive-inv _ v arg cfg' h
set_option-inv stats_interval arg v cfg cfg' h = positive-inv _ v arg cfg' h
set_option-inv kafka_brokers arg v cfg cfg' h = (tt, sym (ok-injective h))
set_option-inv kafka_topic arg v cfg cfg' h = (tt, sym (ok-injective h))
set_option-inv kafka_conf arg v cfg cfg' h = (tt, sym (ok-injective h))
set_option-inv schema_registry_url arg v cfg cfg' h = (tt, sym (ok-injective h))
set_option-inv sr_buffer arg v cfg cfg' h = positive-inv _ v arg cfg' h
set_option-inv metrics_port arg v cfg cfg' h =
    let (n, e, e') =
      >>=-ok_inv (parse_positive_int v arg)
        (λ p.
          if ltb 65_535 p then err port_range else ok (record cfg { metrics_port = p % 2 ^ 16 }))
        h in
    let (p, q) = counted-inv v arg n e in
    let (r, same) =
      guarded (ltb 65_535 n) port_range (record cfg { metrics_port = n % 2 ^ 16 }) cfg' e' in
    (
      (p, ground (arith, r, q)),
      same ∙ ap (λ k. record cfg { metrics_port = k }) {x = n % 2 ^ 16} (ground (arith, r, q)),
    )
set_option-inv log_level arg v cfg cfg' h =
    let (r, same) = wanted (is_level v) bad_level (record cfg { log_level = v }) cfg' h in
    ((is_level_iff v).0 r, same)
