-- ===== src/Base/Memory.antt =====
-- Bytes in memory as the C++ code sees them. A `const uint8_t *` is the function that gives the
-- byte at each index from it; how many of those may be read is a separate `size`.
use av_hil_validation_platfo.Base.Lists.{length, get_or, length-append, get_or-append_right}
use av_hil_validation_platfo.Base.{
  ℕ, zero, suc, ◌+◌, ◌*◌, ◌/◌, ◌%◌, ◌^◌, ◌<◌, ◌≡◌, refl, ap, ap₂, sym, ◌∙◌, List, [], ◌∷◌, ◌++◌,
  append_assoc, arith,
}

abbrev pub Memory : Type 0
Memory = ℕ → ℕ

-- `data + off`
abbrev pub advance : Memory → ℕ → Memory
advance m off i = m (off + i)

-- What a pointer to a vector's bytes sees. Past its end it sees zeros here; a theorem that the code
-- reads nothing there makes the choice harmless.
abbrev pub load : List ℕ → Memory
load l i = get_or l i 0

-- The first `n` bytes from index `i`.
abbrev pub bytes_from : Memory → ℕ → ℕ → List ℕ
bytes_from m i zero = []
bytes_from m i (suc n) = m i ∷ bytes_from m (i + 1) n

-- `(v >> (8 * k)) & 0xFF`
abbrev pub byte_at : ℕ → ℕ → ℕ
byte_at v k = v / 2 ^ (8 * k) % 2 ^ 8

-- Every value is that of a `uint8_t`.
abbrev pub AllBytes : List ℕ → Type 0
AllBytes [] = Unit
AllBytes (x ∷ xs) = (x < 256) × AllBytes xs

pub AllBytes-append : (xs ys : List ℕ) → AllBytes xs → AllBytes ys → AllBytes (xs ++ ys)
AllBytes-append [] ys hx hy = hy
AllBytes-append (x ∷ xs) ys hx hy = (hx.0, AllBytes-append xs ys hx.1 hy)

pub load_byte : (l : List ℕ) (i : ℕ) → AllBytes l → load l i < 256
load_byte [] i h = omega arith
load_byte (x ∷ xs) zero h = h.0
load_byte (x ∷ xs) (suc i) h = load_byte xs i h.1

-- Two memories that agree on the bytes read give the same bytes.
pub bytes_from-agree :
    (a b : Memory) (i n : ℕ)
    → ((j : ℕ) → j < i + n → a j ≡ b j)
    → bytes_from a i n ≡ bytes_from b i n
bytes_from-agree a b i zero h = refl
bytes_from-agree a b i (suc n) h =
    ap₂ ◌∷◌ (h i (omega arith)) (bytes_from-agree a b (i + 1) n (λ j p. h j (omega arith)))

pub length-bytes_from : (m : Memory) (i n : ℕ) → length (bytes_from m i n) ≡ n
length-bytes_from m i zero = refl
length-bytes_from m i (suc n) = omega (arith, length-bytes_from m (i + 1) n)

-- Bytes copied into a list are read back from it.
pub load-bytes_from :
    (m : Memory) (i n j : ℕ) (rest : List ℕ) → j < n → load (bytes_from m i n ++ rest) j ≡ m (i + j)
load-bytes_from m i zero j rest h = absurd (omega arith)
load-bytes_from m i (suc n) zero rest h = ap m (omega arith)
load-bytes_from m i (suc n) (suc j) rest h =
    load-bytes_from m (i + 1) n j rest (omega arith) ∙ ap m (omega arith)

-- The bytes of a list, read at its place in another.
pub bytes_from-load :
    (before l after : List ℕ) (k : ℕ)
    → k ≡ length before
    → bytes_from (load (before ++ (l ++ after))) k (length l) ≡ l
bytes_from-load before [] after k e = refl
bytes_from-load before (x ∷ xs) after k e =
    ap₂ ◌∷◌ (get_or-append_right before (x ∷ xs ++ after) 0 k 0 (omega arith)) (
      ap (λ (l : List ℕ). bytes_from (load l) (k + 1) (length xs))
        (sym (append_assoc before (x ∷ []) (xs ++ after)))
      ∙ bytes_from-load (before ++ (x ∷ [])) xs after (k + 1)
          (omega (arith, length-append before (x ∷ []))))
