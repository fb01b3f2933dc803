-- ===== src/Config/Parser/Accepted.antt =====
-- Which command lines src/config/config_parser.cpp accepts, and what they mean.
use Prim.Native.String.{String}
use packetpipe.Common.{◌≡◌, ◌≢◌, refl, sym, ap, ap₂, subst, ◌∙◌, ◌↔◌, List, [], ◌∷◌, All, arith}
use packetpipe.Common.Result.{ok, ok-injective, ◌>>=◌, >>=-ok_inv}
use packetpipe.Config.{AppConfig, defaults}
use packetpipe.Config.Parser.Flags.{spelling, flag_of-spelling, flag_of-inv, is_empty_iff}
use packetpipe.Config.Parser.{
  Flag, Argument, help, unknown, takes_value, flag_of, take_option, take_last, parse_loop,
  check_source, parse,
}
use packetpipe.Config.Parser.Settings.{
  Fits, apply, apply_all, written, HasOneSource, set_option-ok, set_option-inv,
}

parse_loop-written :
    (ss : List (Flag × String)) (cfg : AppConfig)
    → All Fits ss
    → parse_loop (written ss) cfg ≡ ok (apply_all ss cfg)
unfolding parse_loop
parse_loop-written [] cfg h = refl
parse_loop-written ((f, v) ∷ ss) cfg h =
    ap (λ a. take_option a (spelling f) v cfg >>= λ cfg'. parse_loop (written ss) cfg')
      (flag_of-spelling f)
    ∙ ap (λ r. r >>= λ cfg'. parse_loop (written ss) cfg') (set_option-ok f (spelling f) v cfg h.0)
    ∙ parse_loop-written ss (apply (f, v) cfg) h.1

-- A turn that succeeds had a flag and a value that fits it.
take_option-inv :
    (a : Argument) (arg v : String) (cfg cfg' : AppConfig)
    → take_option a arg v cfg ≡ ok cfg'
    → (f : Flag) × (a ≡ takes_value f) × Fits (f, v) × (cfg' ≡ apply (f, v) cfg)
unfolding take_option
take_option-inv help arg v cfg cfg' h = cc
take_option-inv unknown arg v cfg cfg' h = cc
take_option-inv (takes_value f) arg v cfg cfg' h =
    let (p, q) = set_option-inv f arg v cfg cfg' h in (f, refl, p, q)

take_last-err : (a : Argument) (arg : String) (cfg : AppConfig) → take_last a arg ≢ ok cfg
unfolding take_last
take_last-err help arg cfg h = cc
take_last-err unknown arg cfg h = cc
take_last-err (takes_value f) arg cfg h = cc

parse_loop-inv :
    (args : List String) (cfg cfg' : AppConfig)
    → parse_loop args cfg ≡ ok cfg'
    → (ss : List (Flag × String)) × All Fits ss × (args ≡ written ss) × (cfg' ≡ apply_all ss cfg)
unfolding parse_loop
parse_loop-inv [] cfg cfg' h = ([], tt, refl, sym (ok-injective h))
parse_loop-inv (arg ∷ []) cfg cfg' h = absurd (take_last-err (flag_of arg) arg cfg' h)
parse_loop-inv (arg ∷ v ∷ rest) cfg cfg' h =
    let (c, e, e') = >>=-ok_inv (take_option (flag_of arg) arg v cfg) (λ c. parse_loop rest c) h in
    let (f, is, fits, same) = take_option-inv (flag_of arg) arg v cfg c e in
    let (ss, all, w, end) = parse_loop-inv rest c cfg' e' in
    (
      ((f, v) ∷ ss),
      (fits, all),
      ap₂ (λ a r. a ∷ v ∷ r) (flag_of-inv arg f is) w,
      end ∙ ap (apply_all ss) same,
    )

check_source-ok : (cfg : AppConfig) → HasOneSource cfg → check_source cfg ≡ ok cfg
unfolding check_source
check_source-ok cfg h = ground (arith, is_empty_iff cfg.pcap_file, is_empty_iff cfg.iface)

check_source-inv :
    (cfg cfg' : AppConfig) → check_source cfg ≡ ok cfg' → HasOneSource cfg × (cfg' ≡ cfg)
unfolding check_source
check_source-inv cfg cfg' h = ground (arith, is_empty_iff cfg.pcap_file, is_empty_iff cfg.iface)

-- The parser accepts a command line exactly if it is a list of flags with values that fit them, and
-- the settings name one source; the configuration is then the defaults with the settings made from
-- left to right.
pub parse_iff :
    (version program : String) (args : List String) (cfg : AppConfig)
    → (parse version (program ∷ args) ≡ ok cfg) ↔ (
        (ss : List (Flag × String)) × All Fits ss
        × (args ≡ written ss)
        × (cfg ≡ apply_all ss (defaults version))
        × HasOneSource cfg)
unfolding parse
parse_iff version program args cfg = (
  λ h.
      let (c, e, e') = >>=-ok_inv (parse_loop args (defaults version)) (λ c. check_source c) h in
      let (ss, all, w, end) = parse_loop-inv args (defaults version) c e in
      let (source, same) = check_source-inv c cfg e' in
      (ss, all, w, same ∙ end, subst HasOneSource (sym same) source),
  λ (ss, all, w, end, source).
      ap (λ a. parse_loop a (defaults version) >>= check_source) w
      ∙ ap (λ r. r >>= check_source) (parse_loop-written ss (defaults version) all)
      ∙ ap check_source (sym end)
      ∙ check_source-ok cfg source,
)
