-- ===== src/Kafka/KafkaProducer/Settings.antt =====
-- The constructor of src/kafka/kafka_producer.cpp: the three layers of settings. A text is the list
-- of its characters. `Conf` is what librdkafka and the file system answer: whether a setting and the
-- delivery callback are taken, whether a producer can be created, and the lines of a file, `none`
-- if it cannot be opened. The result is the list of all settings made, newest first.
pub mod Layers
mod Tests
use Prim.Native.String.{String}
use packetpipe.Common.{ℕ, Bool, true, Option, none, some, List, [], ◌∷◌, ◌==◌, if◌then◌else◌}
use packetpipe.Common.Chars.{split_first}
use packetpipe.Common.Result.{Result, ok, err, ◌>>=◌}
use packetpipe.Common.Text.{chars_of}
use packetpipe.Config.{AppConfig}
use packetpipe.Config.Parser.{is_empty}

pub record Conf : Type 0 where
  pub accepts : List ℕ → List ℕ → Bool
  pub accepts_dr_cb : Bool
  pub creates : Bool
  pub lines_of : String → Option (List (List ℕ))

pub data KafkaInitError : Type 0 where
  not_set : List ℕ → KafkaInitError
  cannot_open dr_cb_not_set not_created : KafkaInitError

abbrev pub Setting : Type 0
Setting = List ℕ × List ℕ

abbrev pub hard_coded : List Setting
hard_coded =
    (chars_of "compression.codec", chars_of "snappy")
    ∷ (chars_of "batch.num.messages", chars_of "1000")
    ∷ (chars_of "linger.ms", chars_of "5")
    ∷ (chars_of "enable.idempotence", chars_of "false")
    ∷ (chars_of "message.send.max.retries", chars_of "3")
    ∷ []

abbrev pub bootstrap_servers : List ℕ
bootstrap_servers = chars_of "bootstrap.servers"

-- `line.empty() || line[0] == '#'`
unfoldable pub is_skipped : List ℕ → Bool
is_skipped [] = true
is_skipped (c ∷ cs) = c == b'#'

abbrev pub at_most_one : Option Setting → List Setting
at_most_one none = []
at_most_one (some s) = s ∷ []

-- The setting that a line makes, if any: it is cut at its first `=`.
unfoldable pub setting_of : List ℕ → List Setting
unfolding is_skipped
setting_of line = if is_skipped line then [] else at_most_one (split_first b'=' line)

module _ (conf : Conf) where
  -- Calls of the lambda `set`, behind those that were made.
  unfoldable pub set_all : List Setting → List Setting → Result KafkaInitError (List Setting)
  set_all [] made = ok made
  set_all ((key, val) ∷ settings) made =
      let rest = set_all settings ((key, val) ∷ made) in
      if conf.accepts key val then rest else err (not_set key)

  unfoldable pub file_loop : List (List ℕ) → List Setting → Result KafkaInitError (List Setting)
  unfolding set_all setting_of
  file_loop [] made = ok made
  file_loop (line ∷ lines) made = set_all (setting_of line) made >>= λ made'. file_loop lines made'

  unfoldable pub read_conf_file :
      Option (List (List ℕ)) → List Setting → Result KafkaInitError (List Setting)
  unfolding file_loop
  read_conf_file none made = err cannot_open
  read_conf_file (some lines) made = file_loop lines made

  -- What follows the settings.
  unfoldable pub finish : List Setting → Result KafkaInitError (List Setting)
  finish made =
      if conf.accepts_dr_cb
      then (if conf.creates then ok made else err not_created)
      else err dr_cb_not_set

  unfoldable pub create : AppConfig → Result KafkaInitError (List Setting)
  unfolding set_all read_conf_file finish
  create cfg = do
    defaults ← set_all hard_coded []
    layered ←
        (if is_empty cfg.kafka_conf_file
          then ok defaults
          else read_conf_file (conf.lines_of cfg.kafka_conf_file) defaults)
    explicit ← set_all ((bootstrap_servers, chars_of cfg.kafka_brokers) ∷ []) layered
    finish explicit
