-- ===== src/Protocol/Codec/Wire.antt =====
-- The little-endian helpers of frame_codec.cpp: reading gives back what writing put there.
use av_hil_validation_platfo.Base.Memory.{Memory, byte_at}
use av_hil_validation_platfo.Base.Bits.{or_fields}
use av_hil_validation_platfo.Protocol.Codec.{get_u16, get_u32, get_u64}
use av_hil_validation_platfo.Base.{ℕ, ◌+◌, ◌*◌, ◌%◌, ◌^◌, ◌<◌, bit_or, ◌≡◌, ◌∙◌, arith}

module _ (p : Memory) (bytes : (i : ℕ) → p i < 256) where
  pub get_u16-sum : get_u16 p ≡ p 0 + p 1 * 2 ^ 8
  unfolding get_u16
  get_u16-sum = or_fields 8 (p 0) (p 1) (bytes 0)

  pub get_u32-sum : get_u32 p ≡ p 0 + p 1 * 2 ^ 8 + p 2 * 2 ^ 16 + p 3 * 2 ^ 24
  unfolding get_u32
  get_u32-sum = rw (or_fields 8 (p 0) (p 1) (bytes 0)) (
      rw (or_fields 16 (p 0 + p 1 * 2 ^ 8) (p 2) (omega (arith, bytes 0, bytes 1))) (
        or_fields 24 (p 0 + p 1 * 2 ^ 8 + p 2 * 2 ^ 16) (p 3)
          (omega (arith, bytes 0, bytes 1, bytes 2))))

pub get_u16-bytes :
    (p : Memory) (v : ℕ) → v < 2 ^ 16 → p 0 ≡ byte_at v 0 → p 1 ≡ byte_at v 1 → get_u16 p ≡ v
unfolding get_u16
get_u16-bytes p v h e0 e1 =
    rw (e0, e1) (or_fields 8 (byte_at v 0) (byte_at v 1) (omega arith) ∙ omega arith)

pub get_u32-bytes :
    (p : Memory) (v : ℕ)
    → v < 2 ^ 32
    → p 0 ≡ byte_at v 0
    → p 1 ≡ byte_at v 1
    → p 2 ≡ byte_at v 2
    → p 3 ≡ byte_at v 3
    → get_u32 p ≡ v
unfolding get_u32
get_u32-bytes p v h e0 e1 e2 e3 =
    rw (e0, e1, e2, e3)
      (rw (or_fields 8 (byte_at v 0) (byte_at v 1) (omega arith)) (
        rw (or_fields 16 (byte_at v 0 + byte_at v 1 * 2 ^ 8) (byte_at v 2) (omega arith)) (
          or_fields 24 (byte_at v 0 + byte_at v 1 * 2 ^ 8 + byte_at v 2 * 2 ^ 16) (byte_at v 3)
            (omega arith)
          ∙ omega arith)))

-- One round of the loop of `get_u64`: the next byte is put above the bits read so far.
next_byte :
    (p : Memory) (v i k low high : ℕ)
    → p i ≡ byte_at v i
    → low < 2 ^ k
    → low + byte_at v i * 2 ^ k ≡ high
    → bit_or low (p i * 2 ^ k) ≡ high
next_byte p v i k low high e h sum = rw e (or_fields k low (byte_at v i) h ∙ sum)

pub get_u64-bytes :
    (p : Memory) (v : ℕ)
    → v < 2 ^ 64
    → p 0 ≡ byte_at v 0
    → p 1 ≡ byte_at v 1
    → p 2 ≡ byte_at v 2
    → p 3 ≡ byte_at v 3
    → p 4 ≡ byte_at v 4
    → p 5 ≡ byte_at v 5
    → p 6 ≡ byte_at v 6
    → p 7 ≡ byte_at v 7
    → get_u64 p ≡ v
unfolding get_u64
get_u64-bytes p v h e0 e1 e2 e3 e4 e5 e6 e7 =
    rw (next_byte p v 0 0 0 (v % 2 ^ 8) e0 (omega arith) (omega arith)) (
      rw (next_byte p v 1 8 (v % 2 ^ 8) (v % 2 ^ 16) e1 (omega arith) (omega arith)) (
        rw (next_byte p v 2 16 (v % 2 ^ 16) (v % 2 ^ 24) e2 (omega arith) (omega arith)) (
          rw (next_byte p v 3 24 (v % 2 ^ 24) (v % 2 ^ 32) e3 (omega arith) (omega arith)) (
            rw (next_byte p v 4 32 (v % 2 ^ 32) (v % 2 ^ 40) e4 (omega arith) (omega arith)) (
              rw (next_byte p v 5 40 (v % 2 ^ 40) (v % 2 ^ 48) e5 (omega arith) (omega arith)) (
                rw (next_byte p v 6 48 (v % 2 ^ 48) (v % 2 ^ 56) e6 (omega arith) (omega arith))
                  ((next_byte p v 7 56 (v % 2 ^ 56) v e7 (omega arith) (omega arith)))))))))

-- A number read depends on its four bytes.
pub get_u32-four :
    (p q : Memory) → p 0 ≡ q 0 → p 1 ≡ q 1 → p 2 ≡ q 2 → p 3 ≡ q 3 → get_u32 p ≡ get_u32 q
unfolding get_u32
get_u32-four p q e0 e1 e2 e3 = cc

-- Two numbers read are equal only if all four bytes are.
pub get_u32_injective :
    (p q : Memory)
    → ((i : ℕ) → p i < 256)
    → ((i : ℕ) → q i < 256)
    → get_u32 p ≡ get_u32 q
    → (p 0 ≡ q 0) × (p 1 ≡ q 1) × (p 2 ≡ q 2) × (p 3 ≡ q 3)
get_u32_injective p q hp hq e =
    omega
      (arith, get_u32-sum p hp, get_u32-sum q hq, hp 0, hp 1, hp 2, hp 3, hq 0, hq 1, hq 2, hq 3)
