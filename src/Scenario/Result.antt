-- ===== src/Scenario/Result.antt =====
-- What a function that may throw gives: a value, or the text of the exception.
use av_hil_validation_platfo.Base.Text.{Text}
use av_hil_validation_platfo.Base.{◌≡◌, refl, List, [], ◌∷◌, map}

pub data Parsed {ℓ} (A : Type ℓ) : Type ℓ where
  ok : A → Parsed A
  err : Text → Parsed A

module _ {ℓ} {A B : Type ℓ} where
  -- What follows is not reached after an exception.
  infixl 5 ◌>>=◌
  abbrev pub ◌>>=◌ : Parsed A → (A → Parsed B) → Parsed B
  first >>= next = elim first [ err what ↦ err what | ok value ↦ next value ]

  pub bind_returns :
      (first : Parsed A) (next : A → Parsed B) {result : B}
      → (first >>= next) ≡ ok result
      → (value : A) × (first ≡ ok value) × (next value ≡ ok result)
  bind_returns (err what) next h = absurd cc
  bind_returns (ok value) next h = (value, refl, h)

module _ {ℓ} {A B : Type ℓ} (f : A → Parsed B) where
  -- A loop that pushes what `f` makes of each element, and that the first exception leaves.
  unfoldable pub each : List A → Parsed (List B)
  each [] = ok []
  each (x ∷ xs) = f x >>= λ y. each xs >>= λ ys. ok (y ∷ ys)

  -- Every element went through, and these are the values in order.
  abbrev pub IsEach : List A → List B → Type ℓ
  IsEach xs ys = map f xs ≡ map ok ys

module _ {ℓ} {A : Type ℓ} where
  head_eq : (x y : A) (xs ys : List A) → x ∷ xs ≡ y ∷ ys → x ≡ y
  head_eq x y xs ys h = cc

  tail_eq : (x y : A) (xs ys : List A) → x ∷ xs ≡ y ∷ ys → xs ≡ ys
  tail_eq x y xs ys h = cc

module _ {ℓ} {A B : Type ℓ} (f : A → Parsed B) where
  pub each-IsEach : (xs : List A) {ys : List B} → each f xs ≡ ok ys → IsEach f xs ys
  unfolding each
  each-IsEach [] h = cc
  each-IsEach (x ∷ xs) h =
      let (y, first, h2) = bind_returns (f x) (λ y. each f xs >>= λ ys. ok (y ∷ ys)) h in
      let (ys, rest, h3) = bind_returns (each f xs) (λ ys. ok (y ∷ ys)) h2 in
      let more = each-IsEach xs rest in cc

  pub each_of_IsEach : (xs : List A) (ys : List B) → IsEach f xs ys → each f xs ≡ ok ys
  unfolding each
  each_of_IsEach [] [] h = refl
  each_of_IsEach [] (y ∷ ys) h = cc
  each_of_IsEach (x ∷ xs) [] h = cc
  each_of_IsEach (x ∷ xs) (y ∷ ys) h =
      rw
        (
          head_eq (f x) (ok y) (map f xs) (map ok ys) h,
          each_of_IsEach xs ys (tail_eq (f x) (ok y) (map f xs) (map ok ys) h),
        )
        refl
