-- ===== src/Main/StartUp/Exit.antt =====
-- The exit code of src/main.cpp.
use Prim.Native.String.{String}
use packetpipe.Common.{
  ◌≡◌, ◌↔◌, ◌⊎◌, refl, sym, ap, subst, ◌∙◌, inl, inr, Bool, true, false, Option, some, List,
}
use packetpipe.Common.Result.{Result, ok, err, >>=-ok_inv, >>-ok_inv, ok-injective}
use packetpipe.Common.Text.{chars_of}
use packetpipe.Config.Parser.{parse}
use packetpipe.Avro.SchemaRegistryClient.{look_up}
use packetpipe.Kafka.KafkaProducer.Settings.{create}
use packetpipe.Metrics.{Metrics}
use packetpipe.Packets.{ParsedPacket}
use packetpipe.Packets.Sources.{Ending, SourceError, finished, running, faulted, thrown}
use packetpipe.Main.StartUp.{
  Surroundings, StartError, bad_arguments, no_schema_id, no_producer, not_listening, schema_lost,
  schema_invalid, throwing, check, Parts, start_up, run_source, exit_of, exit_after, main,
}

-- Each part can be made, one after the other, from the command line.
pub record Starts {J : Type 0} (around : Surroundings J) (version : String) (argv : List String)
    (parts : Parts) : Type 0 where
  pub parsed : parse version argv ≡ ok parts.cfg
  pub listens : around.listens ≡ true
  pub schema_id :
      look_up around.registry
        (chars_of parts.cfg.schema_registry_url)
        (chars_of "packetpipe-FlowEvent-value")
      ≡ ok parts.schema_id
  pub schema_opens : around.schema_opens ≡ true
  pub schema_compiles : around.schema_compiles ≡ true
  pub settings : create around.conf parts.cfg ≡ ok parts.settings

throwing-ok_inv :
    {E A : Type 0} (as_error : E → StartError) (m : Result E A) {a : A}
    → throwing as_error m ≡ ok a
    → m ≡ ok a
unfolding throwing
throwing-ok_inv as_error (ok x) e = ap ok (ok-injective e)
throwing-ok_inv as_error (err x) e = cc

check-ok_inv : (b : Bool) (e : StartError) {u : Unit {0}} → check b e ≡ ok u → b ≡ true
unfolding check
check-ok_inv true e h = refl
check-ok_inv false e h = cc

module _ {J : Type 0} (around : Surroundings J) (version : String) (argv : List String) where
  start_up-inv :
      (parts : Parts) → start_up around version argv ≡ ok parts → Starts around version argv parts
  unfolding start_up
  start_up-inv parts h =
      let (cfg, parsed, h1) = >>=-ok_inv (throwing bad_arguments (parse version argv)) _ h in
      let (u1, listens, h2) = >>-ok_inv (check around.listens not_listening) _ h1 in
      let (id, looked, h3) =
        >>=-ok_inv
          (throwing no_schema_id (
            look_up around.registry (chars_of cfg.schema_registry_url)
              (chars_of "packetpipe-FlowEvent-value")))
          _ h2 in
      let (u2, opens, h4) = >>-ok_inv (check around.schema_opens schema_lost) _ h3 in
      let (u3, compiles, h5) = >>-ok_inv (check around.schema_compiles schema_invalid) _ h4 in
      let (made, created, h6) = >>=-ok_inv (throwing no_producer (create around.conf cfg)) _ h5 in
      subst (λ p. Starts around version argv p) (ok-injective h6)
        (record {
          parsed = throwing-ok_inv bad_arguments _ parsed;
          listens = check-ok_inv around.listens not_listening listens;
          schema_id = throwing-ok_inv no_schema_id _ looked;
          schema_opens = check-ok_inv around.schema_opens schema_lost opens;
          schema_compiles = check-ok_inv around.schema_compiles schema_invalid compiles;
          settings = throwing-ok_inv no_producer _ created;
        })

  start_up-ok :
      (parts : Parts) → Starts around version argv parts → start_up around version argv ≡ ok parts
  unfolding start_up throwing check
  start_up-ok parts s =
      rw (s.parsed, s.listens, s.schema_id, s.schema_opens, s.schema_compiles, s.settings) refl

exit_of-zero : (e : Ending) → (exit_of e ≡ some 0) ↔ (e ≡ finished)
unfolding exit_of
exit_of-zero finished = (λ h. refl, λ h. refl)
exit_of-zero running = (λ h. cc, λ h. cc)
exit_of-zero faulted = (λ h. cc, λ h. cc)
exit_of-zero (thrown x) = (λ h. cc, λ h. cc)

exit_of-one : (e : Ending) → (exit_of e ≡ some 1) ↔ ((x : SourceError) × (e ≡ thrown x))
unfolding exit_of
exit_of-one finished = (λ h. cc, λ (x, h). cc)
exit_of-one running = (λ h. cc, λ (x, h). cc)
exit_of-one faulted = (λ h. cc, λ (x, h). cc)
exit_of-one (thrown x) = (λ h. (x, refl), λ (y, h). refl)

module _ {J S : Type 0} (around : Surroundings J) (callback : ParsedPacket → S → S)
    (registry : Option ((Metrics → Metrics) → S → S)) (version : String) (argv : List String)
    (initial : Parts → S) where
  -- How the run of the source ends, once the parts are made.
  abbrev pub RunEnds : Parts → Ending → Type 0
  RunEnds parts e =
      Starts around version argv parts
      × ((run_source around callback registry parts.cfg (initial parts)).ending ≡ e)

  same :
      (parts parts' : Parts)
      → Starts around version argv parts
      → Starts around version argv parts'
      → parts ≡ parts'
  same parts parts' s s' =
      ok-injective
        (sym (start_up-ok around version argv parts s) ∙ start_up-ok around version argv parts' s')

  exit_after_lem :
      (r : Result StartError Parts)
      → start_up around version argv ≡ r
      → ((exit_after around callback registry initial r ≡ some 0)
          ↔ ((parts : Parts) × RunEnds parts finished))
        × ((exit_after around callback registry initial r ≡ some 1) ↔ (
            ((parts : Parts) → ¬ (Starts around version argv parts))
            ⊎ ((parts : Parts) × (x : SourceError) × RunEnds parts (thrown x))))
  unfolding exit_after
  exit_after_lem (err e) h = (
    (λ k. cc, λ (parts, (s, k)). cc (h, start_up-ok around version argv parts s)),
    (λ k. inl (λ parts s. cc (h, start_up-ok around version argv parts s)), λ k. refl),
  )
  exit_after_lem (ok parts) h =
      let s = start_up-inv around version argv parts h in
      (
        (
          λ k. (parts, (s, (exit_of-zero _).0 k)),
          λ (parts', (s', k)).
              ap
                (λ (p : Parts).
                  exit_of (run_source around callback registry p.cfg (initial p)).ending)
                (same parts parts' s s')
              ∙ (exit_of-zero _).1 k,
        ),
        (
          λ k. let (x, e) = (exit_of-one _).0 k in inr (parts, x, (s, e)),
          λ k. elim k [
            | inl n ↦ absurd (n parts s)
            | inr (parts', x, (s', e)) ↦
                ap
                  (λ (p : Parts).
                    exit_of (run_source around callback registry p.cfg (initial p)).ending)
                  (same parts parts' s s')
                ∙ (exit_of-one _).1 (x, e)
          ],
        ),
      )

  -- Whatever the libraries answer: the process returns 0 exactly if the command line is accepted, each
  -- part can be made, and the run of the source that it names ends as it should; and it returns 1
  -- exactly if one of them cannot be made, or the source throws.
  pub main_iff :
      ((main around callback registry version argv initial ≡ some 0)
        ↔ ((parts : Parts) × RunEnds parts finished))
      × ((main around callback registry version argv initial ≡ some 1) ↔ (
          ((parts : Parts) → ¬ (Starts around version argv parts))
          ⊎ ((parts : Parts) × (x : SourceError) × RunEnds parts (thrown x))))
  unfolding main
  main_iff = exit_after_lem (start_up around version argv) refl
