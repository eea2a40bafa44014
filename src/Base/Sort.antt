-- ===== src/Base/Sort.antt =====
-- `std::sort` and `std::stable_sort`, and what they promise of a strict weak order.
use av_hil_validation_platfo.Base.Lists.{All, length, get_or}
use av_hil_validation_platfo.Base.Tests.{Bool-cases, if◌then◌else◌}
use Prim.Native.Nat.{ℕ, zero, suc, ◌<◌}
use mathlib.Core.Path.{◌≡◌, refl}
use mathlib.Core.Logic.{inl, inr}
use mathlib.Core.Bool.{Bool, true, false}
use mathlib.Core.List.{List, [], ◌∷◌, Mem, Perm, mem-cons_self, mem-cons_of_mem}
use mathlib.Core.List.Perm
use native.Mathlib.Omega.{arith}

-- By insertion: an element goes in front of the first that is not less than it.
module _ {ℓ} {A : Type ℓ} (less : A → A → Bool) where
  unfoldable pub insert_sorted : A → List A → List A
  insert_sorted x [] = x ∷ []
  insert_sorted x (y ∷ ys) =
      let rest = insert_sorted x ys in if less y x then y ∷ rest else x ∷ y ∷ ys

  unfoldable pub stable_sort : List A → List A
  stable_sort [] = []
  stable_sort (x ∷ xs) = insert_sorted x (stable_sort xs)

module _ {A : Type 0} (less : A → A → Bool) where
  -- `y` does not come before `x`.
  abbrev pub IsNotBelow : A → A → Type 0
  IsNotBelow x y = less y x ≡ false

  pub irreflexive : ((x y : A) → less x y ≡ true → less y x ≡ false) → (x : A) → IsNotBelow x x
  irreflexive asym x = elim (Bool-cases (less x x)) [
    | inl e ↦ absurd (ground (arith, e, asym x x e))
    | inr e ↦ e
  ]

  abbrev pub IsSorted : List A → Type 0
  IsSorted [] = Unit
  IsSorted (x ∷ xs) = All (IsNotBelow x) xs × IsSorted xs

  module _ (asym : (x y : A) → less x y ≡ true → less y x ≡ false)
      (trans : (x y z : A) → IsNotBelow x y → IsNotBelow y z → IsNotBelow x z) where
    All-trans :
        (x y : A) (zs : List A) → IsNotBelow x y → All (IsNotBelow y) zs → All (IsNotBelow x) zs
    All-trans x y [] h g = tt
    All-trans x y (z ∷ zs) h (g, gs) = (trans x y z h g, All-trans x y zs h gs)

    All-insert_sorted :
        (w x : A) (ys : List A)
        → IsNotBelow w x
        → All (IsNotBelow w) ys
        → All (IsNotBelow w) (insert_sorted less x ys)
    unfolding insert_sorted
    All-insert_sorted w x [] h g = (h, tt)
    All-insert_sorted w x (y ∷ ys) h (g, gs) = elim (Bool-cases (less y x)) [
      | inl e ↦ rw e (g, All-insert_sorted w x ys h gs)
      | inr e ↦ rw e (h, (g, gs))
    ]

    insert_sorted-IsSorted :
        (x : A) (ys : List A) → IsSorted ys → IsSorted (insert_sorted less x ys)
    unfolding insert_sorted
    insert_sorted-IsSorted x [] h = (tt, tt)
    insert_sorted-IsSorted x (y ∷ ys) (h, hs) = elim (Bool-cases (less y x)) [
      | inl e ↦ rw e (All-insert_sorted y x ys (asym y x e) h, insert_sorted-IsSorted x ys hs)
      | inr e ↦ rw e ((e, All-trans x y ys e h), (h, hs))
    ]

    pub stable_sort-IsSorted : (xs : List A) → IsSorted (stable_sort less xs)
    unfolding stable_sort
    stable_sort-IsSorted [] = tt
    stable_sort-IsSorted (x ∷ xs) =
        insert_sorted-IsSorted x (stable_sort less xs) (stable_sort-IsSorted xs)

    get_or-All :
        (x none_such : A) (ys : List A) (j : ℕ)
        → j < length ys
        → All (IsNotBelow x) ys
        → IsNotBelow x (get_or ys j none_such)
    get_or-All x none_such [] j h g = absurd (omega (arith, h))
    get_or-All x none_such (y ∷ ys) zero h (g, gs) = g
    get_or-All x none_such (y ∷ ys) (suc j) h (g, gs) =
        get_or-All x none_such ys j (omega (arith, h)) gs

    pub get_or-IsSorted :
        (none_such : A) (xs : List A) (i j : ℕ)
        → IsSorted xs
        → i < j
        → j < length xs
        → IsNotBelow (get_or xs i none_such) (get_or xs j none_such)
    get_or-IsSorted none_such [] i j s ij h = absurd (omega (arith, h))
    get_or-IsSorted none_such (x ∷ xs) i zero s ij h = absurd (omega (arith, ij))
    get_or-IsSorted none_such (x ∷ xs) zero (suc j) (a, s) ij h =
        get_or-All x none_such xs j (omega (arith, h)) a
    get_or-IsSorted none_such (x ∷ xs) (suc i) (suc j) (a, s) ij h =
        get_or-IsSorted none_such xs i j s (omega (arith, ij)) (omega (arith, h))

  length-insert_sorted : (x : A) (ys : List A) → length (insert_sorted less x ys) ≡ suc (length ys)
  unfolding insert_sorted
  length-insert_sorted x [] = refl
  length-insert_sorted x (y ∷ ys) = ground (arith, length-insert_sorted x ys)

  pub length-stable_sort : (xs : List A) → length (stable_sort less xs) ≡ length xs
  unfolding stable_sort
  length-stable_sort [] = refl
  length-stable_sort (x ∷ xs) =
      omega (arith, length-insert_sorted x (stable_sort less xs), length-stable_sort xs)

  insert_sorted-perm : (x : A) (ys : List A) → Perm (insert_sorted less x ys) (x ∷ ys)
  unfolding insert_sorted
  insert_sorted-perm x [] = Perm.refl _
  insert_sorted-perm x (y ∷ ys) = elim (Bool-cases (less y x)) [
    | inl e ↦ rw e (Perm.trans (Perm.cons y (insert_sorted-perm x ys)) (Perm.swap _ _ _))
    | inr e ↦ rw e (Perm.refl _)
  ]

  pub stable_sort-perm : (xs : List A) → Perm (stable_sort less xs) xs
  unfolding stable_sort
  stable_sort-perm [] = Perm.refl _
  stable_sort-perm (x ∷ xs) =
      Perm.trans (insert_sorted-perm x (stable_sort less xs)) (Perm.cons x (stable_sort-perm xs))

  pub get_or-Mem :
      (none_such : A) (xs : List A) (i : ℕ) → i < length xs → Mem (get_or xs i none_such) xs
  get_or-Mem none_such [] i h = absurd (omega (arith, h))
  get_or-Mem none_such (x ∷ xs) zero h = mem-cons_self
  get_or-Mem none_such (x ∷ xs) (suc i) h =
      mem-cons_of_mem x (get_or-Mem none_such xs i (omega (arith, h)))
