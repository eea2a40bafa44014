-- ===== src/Base/Map.antt =====
-- `std::map<std::string, V>` as the list of its entries in the order of their keys.
use av_hil_validation_platfo.Base.Tests.{◌==◌, ltb, if◌then◌else◌, Bool-cases}
use av_hil_validation_platfo.Base.Text.{Text, same, same_self, eq_of_same}
use mathlib.Core.Path.{◌≡◌, refl, sym, ◌∙◌}
use mathlib.Core.Logic.{◌≢◌, inl, inr}
use mathlib.Core.Bool.{Bool, true, false}
use mathlib.Core.Option.{Option, none, some}
use mathlib.Core.List.{List, [], ◌∷◌}

-- `s < t`
abbrev pub before : Text → Text → Bool
before _ [] = false
before [] (y ∷ t) = true
before (x ∷ s) (y ∷ t) = if x == y then before s t else ltb x y

abbrev pub Map {ℓ} : Type ℓ → Type ℓ
Map V = List (Text × V)

pub ne_of_same : (s t : Text) → same s t ≡ false → s ≢ t
ne_of_same s t e h = let yes_same : same s t ≡ true = rw h (same_self t) in cc

pub same_of_ne : (s t : Text) → s ≢ t → same s t ≡ false
same_of_ne s t ne = elim (Bool-cases (same s t)) [
  | inl e ↦ absurd (ne (eq_of_same s t e))
  | inr e ↦ e
]

module _ {ℓ} {V : Type ℓ} where
  -- `m.find(k)`
  abbrev pub find : Text → Map V → Option V
  find k [] = none
  find k ((j, v) ∷ m) = if same k j then some v else find k m

  -- `m[k] = v`
  abbrev pub assign : Text → V → Map V → Map V
  assign k v [] = (k, v) ∷ []
  assign k v ((j, w) ∷ m) =
      if same k j
      then (k, v) ∷ m
      else if before k j
      then (k, v) ∷ (j, w) ∷ m
      else (j, w) ∷ assign k v m

  pub find-assign_self : (k : Text) (v : V) (m : Map V) → find k (assign k v m) ≡ some v
  find-assign_self k v [] = rw (same_self k) refl
  find-assign_self k v ((j, w) ∷ m) = elim (Bool-cases (same k j)) [
    | inl e ↦ rw (e, same_self k) refl
    | inr e ↦ elim (Bool-cases (before k j)) [
      | inl b ↦ rw (e, b, same_self k) refl
      | inr b ↦ rw (e, b, e) (find-assign_self k v m)
    ]
  ]

  pub find-assign_ne : (i k : Text) (v : V) (m : Map V) → i ≢ k → find i (assign k v m) ≡ find i m
  find-assign_ne i k v [] ne = rw (same_of_ne i k ne) refl
  find-assign_ne i k v ((j, w) ∷ m) ne = elim (Bool-cases (same k j)) [
    | inl e ↦ rw (e, same_of_ne i k ne, same_of_ne i j λ ij. ne (ij ∙ sym (eq_of_same k j e))) refl
    | inr e ↦ elim (Bool-cases (before k j)) [
      | inl b ↦ rw (e, b, same_of_ne i k ne) refl
      | inr b ↦ rw (e, b, find-assign_ne i k v m ne) refl
    ]
  ]
