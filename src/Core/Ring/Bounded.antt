-- ===== src/Core/Ring/Bounded.antt =====
-- What a ring promises: a queue that holds a bounded number of items.
use av_hil_validation_platfo.Base.Lists.{length}
use av_hil_validation_platfo.Base.Tests.{ltb, if◌then◌else◌}
use av_hil_validation_platfo.Base.{ℕ, Bool, true, false, Option, none, some, List, [], ◌∷◌, ◌++◌}

module _ {ℓ} {A : Type ℓ} where
  -- At most `bound` items.
  abbrev pub enqueue : ℕ → List A → A → Bool × List A
  enqueue bound q x = if ltb (length q) bound then (true, q ++ (x ∷ [])) else (false, q)

  abbrev pub dequeue : List A → Option A × List A
  dequeue [] = (none, [])
  dequeue (x ∷ q) = (some x, q)

  -- Room is made at the front.
  abbrev pub enqueue_newest : ℕ → List A → A → List A
  enqueue_newest bound q x =
      if ltb (length q) bound then q ++ (x ∷ []) else (dequeue q).1 ++ (x ∷ [])
