-- ===== src/Metrics/Tests.antt =====
-- Runs of the registry, with values in whole units.
use av_hil_validation_platfo.Base.Double.{Double}
use av_hil_validation_platfo.Base.Tests.{ltb, leb, ◌==◌}
use av_hil_validation_platfo.Base.Text.{Text, codes}
use av_hil_validation_platfo.Metrics.Exporter.{serve}
use av_hil_validation_platfo.Metrics.Exporter.Answer.{
  Answers, in_line, read_body, is_word-IsWord, serve-read_body,
}
use av_hil_validation_platfo.Metrics.Registry.{Registry, set_gauge, key}
use av_hil_validation_platfo.Metrics.Registry.Values.{
  Operation, counter, help_text, sensor_gauge, value_at, perform_all, abstract_steps,
  perform_all-refines,
}
use av_hil_validation_platfo.Base.{
  ℕ, ◌+◌, ◌-◌, ◌*◌, ◌/◌, ◌%◌, arith, ◌≡◌, refl, some, List, [], ◌∷◌, ◌++◌,
}

instance abbrev whole : Double ℕ
whole = record {
  of_nat = λ n. n;
  lt = ltb;
  le = leb;
  eq = ◌==◌;
  add = ◌+◌;
  sub = ◌-◌;
  mul = ◌*◌;
  div = ◌/◌;
}

abbrev operations : List (Operation ℕ)
operations =
    help_text (codes "runs") (codes "Runs")
    ∷ counter (codes "runs") 1 []
    ∷ sensor_gauge (codes "rate") (codes "imu") 100
    ∷ counter (codes "runs") 2 []
    ∷ []

perform_all-refines_example :
    value_at (perform_all operations []) (codes "runs") []
    ≡ abstract_steps operations (value_at []) (codes "runs") []
perform_all-refines_example = perform_all-refines operations [] (codes "runs") []

-- Two different lists of labels with one key.
key_of_two :
    key ((codes "a", codes "1;b=2") ∷ [])
    ≡ key ((codes "a", codes "1") ∷ (codes "b", codes "2") ∷ [])
unfolding key
key_of_two = refl

abbrev scraped : Registry ℕ
scraped = set_gauge (codes "rate") 100 [] []

abbrev figure : ℕ → Text
figure n = (48 + n % 10) ∷ []

serve-read_body_example :
    (body : Text) × Answers figure scraped (codes "/metrics") body
    × (read_body in_line
          (serve figure scraped (codes "GET" ++ 32 ∷ (codes "/metrics" ++ 32 ∷ codes "HTTP/1.1")))
        ≡ some body)
serve-read_body_example =
    serve-read_body figure scraped (codes "GET") (codes "/metrics") (codes "HTTP/1.1") (omega arith)
      (is_word-IsWord (codes "GET") refl) (is_word-IsWord (codes "/metrics") refl)
