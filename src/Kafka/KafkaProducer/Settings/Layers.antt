-- ===== src/Kafka/KafkaProducer/Settings/Layers.antt =====
-- What the producer of src/kafka/kafka_producer.cpp is created with, key by key.
use packetpipe.Common.{
  ℕ, ◌≡◌, ◌↔◌, refl, ap, sym, ◌∙◌, true, Bool-cases, Option-cases, inl, inr, Option, none, some,
  List, [], ◌∷◌, ◌++◌, All, if◌then◌else◌,
}
use packetpipe.Common.Result.{Result, ok, ◌>>=◌, >>=-ok_inv, >>=-cong, >>=-assoc, ok-injective}
use packetpipe.Common.Text.{chars_of}
use packetpipe.Config.{AppConfig}
use packetpipe.Config.Parser.{is_empty}
use packetpipe.Events.{bytes_eq}
use packetpipe.Kafka.KafkaProducer.Settings.{
  Conf, KafkaInitError, Setting, hard_coded, bootstrap_servers, setting_of, set_all, file_loop,
  read_conf_file, finish, create,
}

-- The value that the newest call of `set` with this key gave. Where two keys are names of one setting,
-- each has its own.
abbrev pub value : List ℕ → List Setting → Option (List ℕ)
value key [] = none
value key ((k, v) ∷ made) = if bytes_eq key k then some v else value key made

-- The last value of a key in a layer, or what it was before.
abbrev pub override : List ℕ → List Setting → Option (List ℕ) → Option (List ℕ)
override key [] before = before
override key ((k, v) ∷ layer) before =
    override key layer (if bytes_eq key k then some v else before)

abbrev pub settings_in : List (List ℕ) → List Setting
settings_in [] = []
settings_in (line ∷ lines) = setting_of line ++ settings_in lines

-- The settings in the order in which they are made, on a pile of those made before.
abbrev pub pile : List Setting → List Setting → List Setting
pile [] made = made
pile (s ∷ layer) made = pile layer (s ∷ made)

value-pile :
    (key : List ℕ) (layer made : List Setting)
    → value key (pile layer made) ≡ override key layer (value key made)
value-pile key [] made = refl
value-pile key ((k, v) ∷ layer) made = value-pile key layer ((k, v) ∷ made)

override-append :
    (key : List ℕ) (xs ys : List Setting) (before : Option (List ℕ))
    → override key (xs ++ ys) before ≡ override key ys (override key xs before)
override-append key [] ys before = refl
override-append key ((k, v) ∷ xs) ys before =
    override-append key xs ys (if bytes_eq key k then some v else before)

module _ (conf : Conf) where
  abbrev pub Taken : Setting → Type 0
  Taken (key, val) = conf.accepts key val ≡ true

  -- The layer of the file: none if it is not asked for; else the file can be opened.
  abbrev pub FileHolds : AppConfig → List Setting → Type 0
  FileHolds cfg layer =
      if is_empty cfg.kafka_conf_file
      then layer ≡ []
      else ((lines : List (List ℕ)) × (conf.lines_of cfg.kafka_conf_file ≡ some lines)
          × (layer ≡ settings_in lines))

  set_all_iff :
      (layer made made' : List Setting)
      → (set_all conf layer made ≡ ok made') ↔ (All Taken layer × (made' ≡ pile layer made))
  unfolding set_all
  set_all_iff [] made made' = (λ e. (tt, sym (ok-injective e)), λ (w, e). ap ok (sym e))
  set_all_iff ((k, v) ∷ layer) made made' = elim (Bool-cases (conf.accepts k v)) [
    | inl c ↦
        rw (set_all, c)
          (
            λ e. let (w, e') = (set_all_iff layer ((k, v) ∷ made) made').0 e in ((refl, w), e'),
            λ ((t, w), e). (set_all_iff layer ((k, v) ∷ made) made').1 (w, e),
          )
    | inr c ↦ rw (set_all, c) (λ e. cc, λ ((t, w), e). cc)
  ]

  set_all-append :
      (xs ys made : List Setting)
      → set_all conf (xs ++ ys) made ≡ (set_all conf xs made >>= λ made'. set_all conf ys made')
  unfolding set_all
  set_all-append [] ys made = refl
  set_all-append ((k, v) ∷ xs) ys made = elim (Bool-cases (conf.accepts k v)) [
    | inl c ↦ rw c (set_all-append xs ys ((k, v) ∷ made))
    | inr c ↦ rw c refl
  ]

  file_loop_lem :
      (lines : List (List ℕ)) (made : List Setting)
      → file_loop conf lines made ≡ set_all conf (settings_in lines) made
  unfolding file_loop set_all
  file_loop_lem [] made = refl
  file_loop_lem (line ∷ lines) made =
      >>=-cong (set_all conf (setting_of line) made) (λ made'. file_loop_lem lines made')
      ∙ sym (set_all-append (setting_of line) (settings_in lines) made)

  finish_iff :
      (made made' : List Setting)
      → (finish conf made ≡ ok made')
        ↔ ((conf.accepts_dr_cb ≡ true) × (conf.creates ≡ true) × (made' ≡ made))
  unfolding finish
  finish_iff made made' = elim (Bool-cases conf.accepts_dr_cb) [
    | inl a ↦ elim (Bool-cases conf.creates) [
      | inl b ↦ rw (a, b) (λ e. (refl, refl, sym (ok-injective e)), λ (x, y, e). ap ok (sym e))
      | inr b ↦ rw (a, b) (λ e. cc, λ (x, y, e). cc)
    ]
    | inr a ↦ rw a (λ e. cc, λ (x, y, e). cc)
  ]

  -- The part of the constructor between the hard-coded settings and the explicit ones.
  abbrev from_file : AppConfig → List Setting → Result KafkaInitError (List Setting)
  from_file cfg made =
      if is_empty cfg.kafka_conf_file
      then ok made
      else read_conf_file conf (conf.lines_of cfg.kafka_conf_file) made

  from_file_lem :
      (cfg : AppConfig) (layer made : List Setting)
      → FileHolds cfg layer
      → from_file cfg made ≡ set_all conf layer made
  unfolding set_all read_conf_file
  from_file_lem cfg layer made = elim (Bool-cases (is_empty cfg.kafka_conf_file)) [
    | inl b ↦ rw b (λ h. rw h refl)
    | inr b ↦ rw b (λ (lines, e, h). rw (e, h) (file_loop_lem lines made))
  ]

  from_file_inv :
      (cfg : AppConfig) (made made' : List Setting)
      → from_file cfg made ≡ ok made'
      → (layer : List Setting) × FileHolds cfg layer
  unfolding read_conf_file
  from_file_inv cfg made made' = elim (Bool-cases (is_empty cfg.kafka_conf_file)) [
    | inl b ↦ rw b (λ e. ([], refl))
    | inr b ↦ elim (Option-cases (conf.lines_of cfg.kafka_conf_file)) [
      | inl n ↦ rw (b, n) (λ e. cc)
      | inr (lines, l) ↦ rw (b, l) (λ e. (settings_in lines, (lines, refl, refl)))
    ]
  ]

  join_layers :
      (xs ys made : List Setting) (k : List Setting → Result KafkaInitError (List Setting))
      → (set_all conf xs made >>= λ a. set_all conf ys a >>= k)
        ≡ (set_all conf (xs ++ ys) made >>= k)
  join_layers xs ys made k =
      sym (>>=-assoc (set_all conf xs made) (λ a. set_all conf ys a) k)
      ∙ ap (λ r. r >>= k) (sym (set_all-append xs ys made))

  three_layers :
      (cfg : AppConfig) (xs layer ys made : List Setting)
      → FileHolds cfg layer
      → (set_all conf xs made >>= λ a.
          from_file cfg a >>= λ b. set_all conf ys b >>= λ d. finish conf d)
        ≡ (set_all conf (xs ++ (layer ++ ys)) made >>= λ d. finish conf d)
  three_layers cfg xs layer ys made h =
      let k : List Setting → Result KafkaInitError (List Setting) = λ d. finish conf d in
      >>=-cong (set_all conf xs made) (λ a.
        ap (λ r. r >>= λ b. set_all conf ys b >>= k) (from_file_lem cfg layer a h)
        ∙ join_layers layer ys a k)
      ∙ join_layers xs (layer ++ ys) made k

  -- The explicit setting, which comes last.
  abbrev pub explicit : AppConfig → List Setting
  explicit cfg = (bootstrap_servers, chars_of cfg.kafka_brokers) ∷ []

  create_lem :
      (cfg : AppConfig) (layer : List Setting)
      → FileHolds cfg layer
      → create conf cfg
        ≡ (set_all conf (hard_coded ++ (layer ++ explicit cfg)) [] >>= λ made. finish conf made)
  unfolding create
  create_lem cfg layer h = three_layers cfg hard_coded layer (explicit cfg) [] h

  -- The constructor makes a producer exactly if the file, if one is named, can be opened, if librdkafka
  -- takes the callback and every setting, and if the producer can be created; and then the settings
  -- were made in the order: those of the code, those of the file line by line, the brokers.
  pub create_iff :
      (cfg : AppConfig) (made : List Setting)
      → (create conf cfg ≡ ok made) ↔ (
          (layer : List Setting) × FileHolds cfg layer
          × All Taken (hard_coded ++ (layer ++ explicit cfg))
          × (conf.accepts_dr_cb ≡ true)
          × (conf.creates ≡ true)
          × (made ≡ pile (hard_coded ++ (layer ++ explicit cfg)) []))
  unfolding create
  create_iff cfg made = (
    λ e.
        let (a, ea, e') = >>=-ok_inv (set_all conf hard_coded []) _ e in
        let (b, eb, e'') = >>=-ok_inv (from_file cfg a) _ e' in
        let (layer, h) = from_file_inv cfg a b eb in
        let (d, ed, f) =
          >>=-ok_inv (set_all conf (hard_coded ++ (layer ++ explicit cfg)) []) _
            (sym (create_lem cfg layer h) ∙ e) in
        let (w, p) = (set_all_iff (hard_coded ++ (layer ++ explicit cfg)) [] d).0 ed in
        let (x, y, q) = (finish_iff d made).0 f in (layer, h, w, x, y, q ∙ p),
    λ (layer, h, w, x, y, p).
        create_lem cfg layer h
        ∙ ap (λ r. r >>= λ made. finish conf made)
            ((set_all_iff (hard_coded ++ (layer ++ explicit cfg)) [] made).1 (w, p))
        ∙ (finish_iff made made).1 (x, y, refl),
  )

  -- Of the calls of `set` that made a producer, the last one with a given key, as the key is spelt: for
  -- `bootstrap.servers` it has the brokers of the configuration, whatever the file says; for any
  -- other key it has the value of the last line of the file with this key, or else that of the code.
  pub value-create :
      (cfg : AppConfig) (made : List Setting) (key : List ℕ)
      → create conf cfg ≡ ok made
      → (layer : List Setting) × FileHolds cfg layer
        × (value key made ≡ (
            if bytes_eq key bootstrap_servers
            then some (chars_of cfg.kafka_brokers)
            else override key layer (override key hard_coded none)))
  value-create cfg made key e =
      let (layer, h, w, x, y, p) = (create_iff cfg made).0 e in
      (
        layer,
        h,
        ap (λ m. value key m) p
            ∙ value-pile key (hard_coded ++ (layer ++ explicit cfg)) []
            ∙ override-append key hard_coded (layer ++ explicit cfg) none
            ∙ override-append key layer (explicit cfg) (override key hard_coded none),
      )
