-- ===== src/Kafka/KafkaProducer/Settings/Tests.antt =====
-- The constructor of src/kafka/kafka_producer.cpp with a small file.
use packetpipe.Common.{
  ℕ, ◌≡◌, ◌↔◌, refl, Bool, true, none, some, List, [], ◌∷◌, ◌++◌, All, if◌then◌else◌,
}
use packetpipe.Common.Chars.{split_first}
use packetpipe.Common.Result.{ok, err}
use packetpipe.Common.Text.{chars_of}
use packetpipe.Config.{AppConfig, defaults}
use packetpipe.Config.Parser.{is_empty}
use packetpipe.Events.{bytes_eq}
use packetpipe.Kafka.KafkaProducer.Settings.{
  Conf, Setting, cannot_open, hard_coded, bootstrap_servers, setting_of, create,
}
use packetpipe.Kafka.KafkaProducer.Settings.Layers.{
  value, override, pile, FileHolds, Taken, explicit, create_iff, value-create,
}

-- A file that sets a key twice, one that the code sets too, and the brokers.
abbrev lines : List (List ℕ)
lines =
    chars_of "# tuned"
    ∷ chars_of "linger.ms=20"
    ∷ chars_of ""
    ∷ chars_of "bootstrap.servers=elsewhere:1"
    ∷ chars_of "linger.ms=a=b"
    ∷ chars_of "no setting"
    ∷ []

abbrev willing : Conf
willing = record {
  accepts = λ key val. true;
  accepts_dr_cb = true;
  creates = true;
  lines_of = λ path. some lines;
}

abbrev cfg : AppConfig
unfolding defaults
cfg = record (defaults "1.0.0") { kafka_conf_file = "kafka.conf" }

abbrev layer : List Setting
layer =
    (chars_of "linger.ms", chars_of "20")
    ∷ (chars_of "bootstrap.servers", chars_of "elsewhere:1")
    ∷ (chars_of "linger.ms", chars_of "a=b")
    ∷ []

abbrev made : List Setting
unfolding defaults
made = pile (hard_coded ++ (layer ++ explicit willing cfg)) []

created : create willing cfg ≡ ok made
unfolding create setting_of split_first defaults is_empty
created = refl

linger_test : value (chars_of "linger.ms") made ≡ some (chars_of "a=b")
unfolding bytes_eq defaults
linger_test = refl

-- A file that cannot be opened.
lost_test : create (record willing { lines_of = λ path. none }) cfg ≡ err cannot_open
unfolding create defaults is_empty
lost_test = refl

create_iff_example : (create willing cfg ≡ ok made) ↔ (
    (layer : List Setting) × FileHolds willing cfg layer
    × All (λ s. Taken willing s) (hard_coded ++ (layer ++ explicit willing cfg))
    × (◌≡◌ {A = Bool} true true)
    × (◌≡◌ {A = Bool} true true)
    × (made ≡ pile (hard_coded ++ (layer ++ explicit willing cfg)) []))
create_iff_example = create_iff willing cfg made

value-create_example :
    (layer : List Setting) × FileHolds willing cfg layer
    × (value (chars_of "linger.ms") made ≡ (
        if bytes_eq (chars_of "linger.ms") bootstrap_servers
        then some (chars_of cfg.kafka_brokers)
        else override
            (chars_of "linger.ms")
            layer
            (override (chars_of "linger.ms") hard_coded none)))
value-create_example = value-create willing cfg made (chars_of "linger.ms") created
