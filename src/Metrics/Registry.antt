-- ===== src/Metrics/Registry.antt =====
-- src/metrics/registry.hpp: the registry, and its text in the Prometheus format. The lock makes each
-- operation one step. What an output stream writes for a `double` is a parameter.
pub mod Escape
pub mod Values
use av_hil_validation_platfo.Base.Double.{Double}
use av_hil_validation_platfo.Base.Map.{Map, find, assign}
use av_hil_validation_platfo.Base.Tests.{◌==◌, if◌then◌else◌}
use av_hil_validation_platfo.Base.Text.{Text, is_empty, codes}
use av_hil_validation_platfo.Base.{
  ℕ, Bool, true, false, not, ◌||◌, Option, none, some, List, [], ◌∷◌, ◌++◌,
}

abbrev pub Labels : Type 0
Labels = Map Text

pub record Series (D : Type 0) : Type 0 where
  pub labels : Labels
  pub value : D

pub record Family (D : Type 0) : Type 0 where
  pub type : Text
  pub help : Text
  pub series : Map (Series D)

abbrev pub Registry : Type 0 → Type 0
Registry D = Map (Family D)

unfoldable pub key : Labels → Text
key [] = []
key ((n, v) ∷ labels) = n ++ (codes "=" ++ (v ++ (codes ";" ++ key labels)))

-- What the loop of `escape` appends for one character.
abbrev pub escape_char : ℕ → Text
escape_char c =
    if c == 10 then 92 ∷ 110 ∷ [] else if c == 34 || c == 92 then 92 ∷ c ∷ [] else c ∷ []

unfoldable pub escape : Text → Text
escape [] = []
escape (c ∷ s) = escape_char c ++ escape s

abbrev pub family_or_new : {D : Type 0} → Option (Family D) → Family D
family_or_new none = record { type = []; help = []; series = [] }
family_or_new (some fam) = fam

module _ {D : Type 0} ⦃d : Double D⦄ where
  abbrev pub value_or_zero : Option (Series D) → D
  value_or_zero none = d.of_nat 0
  value_or_zero (some s) = s.value

  -- `families_[name]`, which makes an empty family where there is none.
  abbrev pub family : Text → Registry D → Family D
  family name reg = family_or_new (find name reg)

  -- The value of `series[k]`, which makes one of 0.0 where there is none.
  abbrev pub series_value : Text → Map (Series D) → D
  series_value k series = value_or_zero (find k series)

  unfoldable pub set_gauge : Text → D → Labels → Registry D → Registry D
  set_gauge name value labels reg =
      let fam = family name reg in
      assign name
        (record fam {
          type = codes "gauge";
          series = assign (key labels) (record { labels = labels; value = value }) fam.series;
        })
        reg

  unfoldable pub set_sensor_gauge : Text → Text → D → Registry D → Registry D
  set_sensor_gauge name sensor value reg = set_gauge name value ((codes "sensor", sensor) ∷ []) reg

  unfoldable pub add_counter : Text → D → Labels → Registry D → Registry D
  add_counter name delta labels reg =
      let fam = family name reg in
      assign name
        (record fam {
          type = codes "counter";
          series =
              assign (key labels)
                (record {
                  labels = labels;
                  value = d.add (series_value (key labels) fam.series) delta;
                })
                fam.series;
        })
        reg

  unfoldable pub set_help : Text → Text → Registry D → Registry D
  set_help name help reg = assign name (record (family name reg) { help = help }) reg

abbrev is_empty_labels : Labels → Bool
is_empty_labels [] = true
is_empty_labels (_ ∷ _) = false

module _ {D : Type 0} (format : D → Text) where
  -- The loop over the labels; the flag is `first`.
  unfoldable pub render_labels : Bool → Labels → Text
  render_labels first [] = []
  render_labels first ((n, v) ∷ rest) =
      (if first then [] else codes ",")
      ++ (n ++ (codes "=" ++ (34 ∷ (escape v ++ (34 ∷ render_labels false rest)))))

  unfoldable pub render_series : Text → Map (Series D) → Text
  render_series name [] = []
  render_series name ((k, s) ∷ rest) =
      name
      ++ ((if is_empty_labels s.labels
            then []
            else codes "{" ++ (render_labels true s.labels ++ codes "}"))
          ++ (codes " " ++ (format s.value ++ (10 ∷ render_series name rest))))

  unfoldable pub render : Registry D → Text
  render [] = []
  render ((name, fam) ∷ rest) =
      (if is_empty fam.help
        then []
        else codes "# HELP " ++ (name ++ (codes " " ++ (fam.help ++ (10 ∷ [])))))
      ++ (codes "# TYPE "
          ++ (name
              ++ (codes " "
                  ++ ((if is_empty fam.type then codes "gauge" else fam.type)
                      ++ (10 ∷ (render_series name fam.series ++ render rest))))))
