-- ===== src/Bridge/Parameters/Namespace.antt =====
-- src/network_bridge.cpp: the spellings of a namespace that `load_parameters` takes for one.
use av_hil_validation_platfo.Base.Tests.{==_of_ne}
use av_hil_validation_platfo.Base.Text.{Text}
use av_hil_validation_platfo.Bridge.Parameters.{slash, back, pop_back, normalize}
use av_hil_validation_platfo.Base.{ℕ, ◌≡◌, ◌≢◌, refl, ap, [], ◌∷◌, ◌++◌}

back-snoc : (s : Text) (c : ℕ) → back (s ++ (c ∷ [])) ≡ c
back-snoc [] c = refl
back-snoc (x ∷ []) c = refl
back-snoc (x ∷ y ∷ s) c = back-snoc (y ∷ s) c

pop_back-snoc : (s : Text) (c : ℕ) → pop_back (s ++ (c ∷ [])) ≡ s
pop_back-snoc [] c = refl
pop_back-snoc (x ∷ []) c = refl
pop_back-snoc (x ∷ y ∷ s) c = ap (λ (l : Text). x ∷ l) (pop_back-snoc (y ∷ s) c)

-- A namespace that neither starts nor ends with a slash is written with one in front, whether it was
-- given with or without one in front and with or without one at the end.
pub normalize_spellings :
    (c : ℕ) (s : Text)
    → c ≢ slash
    → back (c ∷ s) ≢ slash
    → (normalize (c ∷ s) ≡ slash ∷ c ∷ s)
      × (normalize (slash ∷ c ∷ s) ≡ slash ∷ c ∷ s)
      × (normalize ((c ∷ s) ++ (slash ∷ [])) ≡ slash ∷ c ∷ s)
      × (normalize (slash ∷ ((c ∷ s) ++ (slash ∷ []))) ≡ slash ∷ c ∷ s)
unfolding normalize
normalize_spellings c s f l = (
  rw (==_of_ne c slash f, ==_of_ne (back (c ∷ s)) slash l) refl,
  rw (==_of_ne (back (c ∷ s)) slash l) refl,
  rw (==_of_ne c slash f, back-snoc (c ∷ s) slash, pop_back-snoc (c ∷ s) slash) refl,
  rw (back-snoc (c ∷ s) slash, pop_back-snoc (c ∷ s) slash) refl,
)
