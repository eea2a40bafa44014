-- ===== src/Metrics/Registry/Values.antt =====
-- src/metrics/registry.hpp: the values of the registry, as a map from names and keys of labels.
use av_hil_validation_platfo.Base.Double.{Double}
use av_hil_validation_platfo.Base.Map.{
  Map, find, assign, find-assign_self, find-assign_ne, ne_of_same,
}
use av_hil_validation_platfo.Base.Tests.{if◌then◌else◌, Bool-cases}
use av_hil_validation_platfo.Base.Text.{Text, same, eq_of_same, codes}
use av_hil_validation_platfo.Metrics.Registry.{
  Labels, Series, Family, Registry, key, family_or_new, family, value_or_zero, series_value,
  set_gauge, set_sensor_gauge, add_counter, set_help,
}
use av_hil_validation_platfo.Base.{
  ◌≡◌, refl, ap, ◌∙◌, inl, inr, ◌&&◌, Option, none, some, List, [], ◌∷◌,
}

pub data Operation (D : Type 0) : Type 0 where
  gauge : Text → D → Labels → Operation D
  sensor_gauge : Text → Text → D → Operation D
  counter : Text → D → Labels → Operation D
  help_text : Text → Text → Operation D

-- The abstract registry: a function from a name and a key to a value.
abbrev pub Values : Type 0 → Type 0
Values D = Text → Text → Option D

module _ {D : Type 0} where
  abbrev pub value_of : Option (Series D) → Option D
  value_of none = none
  value_of (some s) = some s.value

  abbrev pub value_in : Text → Map (Series D) → Option D
  value_in k series = value_of (find k series)

  abbrev pub family_value : Text → Option (Family D) → Option D
  family_value k none = none
  family_value k (some fam) = value_in k fam.series

  -- The value of a series, by the name of its family and the key of its labels.
  abbrev pub value_at : Registry D → Text → Text → Option D
  value_at reg name k = family_value k (find name reg)

module _ {D : Type 0} ⦃d : Double D⦄ where
  abbrev pub or_zero : Option D → D
  or_zero none = d.of_nat 0
  or_zero (some v) = v

  abbrev pub perform : Operation D → Registry D → Registry D
  perform (gauge name value labels) reg = set_gauge name value labels reg
  perform (sensor_gauge name sensor value) reg = set_sensor_gauge name sensor value reg
  perform (counter name delta labels) reg = add_counter name delta labels reg
  perform (help_text name help) reg = set_help name help reg

  abbrev pub perform_all : List (Operation D) → Registry D → Registry D
  perform_all [] reg = reg
  perform_all (op ∷ ops) reg = perform_all ops (perform op reg)

  abbrev pub store : Text → Text → D → Values D → Values D
  store name k value values n j = if same n name && same j k then some value else values n j

  abbrev pub abstract_step : Operation D → Values D → Values D
  abstract_step (gauge name value labels) values = store name (key labels) value values
  abstract_step (sensor_gauge name sensor value) values =
      store name (key ((codes "sensor", sensor) ∷ [])) value values
  abstract_step (counter name delta labels) values =
      store name (key labels) (d.add (or_zero (values name (key labels))) delta) values
  abstract_step (help_text name help) values = values

  abbrev pub abstract_steps : List (Operation D) → Values D → Values D
  abstract_steps [] values = values
  abstract_steps (op ∷ ops) values = abstract_steps ops (abstract_step op values)

  value_in-assign :
      (k : Text) (s : Series D) (series : Map (Series D)) (j : Text)
      → value_in j (assign k s series) ≡ (if same j k then some s.value else value_in j series)
  value_in-assign k s series j = elim (Bool-cases (same j k)) [
    | inl e ↦ rw e (
        ap (λ (i : Text). value_in i (assign k s series)) (eq_of_same j k e)
        ∙ ap value_of (find-assign_self k s series))
    | inr e ↦ rw e (ap value_of (find-assign_ne j k s series (ne_of_same j k e)))
  ]

  value_at-assign :
      (name : Text) (fam : Family D) (reg : Registry D) (n j : Text)
      → value_at (assign name fam reg) n j
        ≡ (if same n name then value_in j fam.series else value_at reg n j)
  value_at-assign name fam reg n j = elim (Bool-cases (same n name)) [
    | inl e ↦ rw e (
        ap (λ (i : Text). value_at (assign name fam reg) i j) (eq_of_same n name e)
        ∙ ap (family_value j) (find-assign_self name fam reg))
    | inr e ↦ rw e (ap (family_value j) (find-assign_ne n name fam reg (ne_of_same n name e)))
  ]

  of_found :
      (o : Option (Family D)) (j : Text) → value_in j (family_or_new o).series ≡ family_value j o
  of_found none j = refl
  of_found (some fam) j = refl

  value_in-family :
      (name : Text) (reg : Registry D) (j : Text)
      → value_in j (family name reg).series ≡ value_at reg name j
  value_in-family name reg j = of_found (find name reg) j

  -- One series of a family written, whatever else changes in the family.
  written :
      (name k : Text) (s : Series D) (fam : Family D) (reg : Registry D) (n j : Text)
      → fam.series ≡ assign k s (family name reg).series
      → value_at (assign name fam reg) n j ≡ store name k s.value (value_at reg) n j
  written name k s fam reg n j e = elim (Bool-cases (same n name)) [
    | inl same_name ↦
        value_at-assign name fam reg n j
        ∙ rw (same_name, e, eq_of_same n name same_name)
            (value_in-assign k s (family name reg).series j ∙ rw (value_in-family name reg j) refl)
    | inr other ↦ value_at-assign name fam reg n j ∙ rw other refl
  ]

  counted : (o : Option (Series D)) → value_or_zero o ≡ or_zero (value_of o)
  counted none = refl
  counted (some s) = refl

  perform-refines :
      (op : Operation D) (reg : Registry D) (n j : Text)
      → value_at (perform op reg) n j ≡ abstract_step op (value_at reg) n j
  unfolding set_gauge set_sensor_gauge add_counter set_help
  perform-refines (gauge name value labels) reg n j =
      written name (key labels) (record { labels = labels; value = value }) _ reg n j refl
  perform-refines (sensor_gauge name sensor value) reg n j =
      let labels = (codes "sensor", sensor) ∷ [] in
      written name (key labels) (record { labels = labels; value = value }) _ reg n j refl
  perform-refines (counter name delta labels) reg n j =
      let k = key labels in
      let series = (family name reg).series in
      let sum : series_value k series ≡ or_zero (value_at reg name k) =
        counted (find k series) ∙ ap or_zero (value_in-family name reg k) in
      written name k (record { labels = labels; value = d.add (series_value k series) delta }) _ reg
        n j refl
      ∙ ap (λ (v : D). store name k (d.add v delta) (value_at reg) n j) sum
  perform-refines (help_text name help) reg n j = elim (Bool-cases (same n name)) [
    | inl e ↦
        value_at-assign name _ reg n j ∙ rw (e, eq_of_same n name e) (value_in-family name reg j)
    | inr e ↦ value_at-assign name _ reg n j ∙ rw e refl
  ]

  -- After any operations on a registry every series has the value that it has in a map from names and
  -- label keys to values in which a gauge is stored, a counter's delta is added to what is there or to 0,
  -- and a help text changes nothing.
  pub perform_all-refines :
      (ops : List (Operation D)) (reg : Registry D) (n j : Text)
      → value_at (perform_all ops reg) n j ≡ abstract_steps ops (value_at reg) n j
  perform_all-refines [] reg n j = refl
  perform_all-refines (op ∷ ops) reg n j =
      perform_all-refines ops (perform op reg) n j
      ∙ ap (λ (values : Values D). abstract_steps ops values n j)
          (λ i m k. perform-refines op reg m k i)
