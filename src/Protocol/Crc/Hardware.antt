-- ===== src/Protocol/Crc/Hardware.antt =====
-- include/sensorforge/protocol/crc32c.hpp: the dispatch, with the instructions or without.
use native.Mathlib.Nat.{pow-suc}
use av_hil_validation_platfo.Base.Memory.{Memory, bytes_from}
use av_hil_validation_platfo.Protocol.Crc.{
  Cpu, bit_step, software_loop, update, chunk_of, tail_loop, chunk_loop, crc32c_on, crc32c,
}
use av_hil_validation_platfo.Protocol.Crc.Reference.{serial_bits, update-serial}
use av_hil_validation_platfo.Protocol.Crc.Detect.{software_loop-lt}
use av_hil_validation_platfo.Base.{
  ℕ, zero, suc, ◌+◌, ◌*◌, ◌/◌, ◌%◌, ◌^◌, ◌<◌, bit_xor, ◌≡◌, refl, ap, ap₂, sym, ◌∙◌, arith,
}

-- What the processor's manual says of the two instructions: they take 8 or 64 bits of the message
-- into the remainder, lowest bit first.
pub record IsCrc32c (cpu : Cpu) : Type 0 where
  pub u8_lem : (crc b : ℕ) → crc < 2 ^ 32 → b < 2 ^ 8 → cpu.crc32_u8 crc b ≡ serial_bits 8 b crc
  pub u64_lem : (crc v : ℕ) → crc < 2 ^ 32 → v < 2 ^ 64 → cpu.crc32_u64 crc v ≡ serial_bits 64 v crc

-- Taking `j` bits in, and then the rest.
serial_bits_split :
    (j n k b v crc : ℕ)
    → b < 2 ^ j
    → k ≡ j + n
    → serial_bits k (b + 2 ^ j * v) crc ≡ serial_bits n v (serial_bits j b crc)
unfolding serial_bits
serial_bits_split zero n k b v crc h e =
    let ek : k ≡ n = omega arith in
    let ev : b + 1 * v ≡ v = omega arith in ap₂ (λ (t u : ℕ). serial_bits t u crc) ek ev
serial_bits_split (suc j) n zero b v crc h e = absurd (omega arith)
serial_bits_split (suc j) n (suc k) b v crc h e =
    ap₂ (λ (t u : ℕ). serial_bits k t (bit_step (bit_xor crc u))) halved lowest
    ∙ serial_bits_split j n k (b / 2) v (bit_step (bit_xor crc (b % 2)))
        (omega (arith, pow-suc 2 j)) (omega arith)
  where
    halved : (b + 2 ^ suc j * v) / 2 ≡ b / 2 + 2 ^ j * v
    halved = omega (arith, ap (λ (t : ℕ). t * v) (pow-suc 2 j))

    lowest : (b + 2 ^ suc j * v) % 2 ≡ b % 2
    lowest = omega (arith, ap (λ (t : ℕ). t * v) (pow-suc 2 j))

module _ (m : Memory) (bytes : (j : ℕ) → m j < 256) where
  chunk-serial :
      (i n k crc : ℕ)
      → k ≡ 8 * n
      → serial_bits k (chunk_of (bytes_from m i n)) crc ≡ software_loop m i n crc
  unfolding software_loop serial_bits
  chunk-serial i zero k crc e =
      ap (λ (t : ℕ). serial_bits t 0 crc) (let z : k ≡ 0 = omega arith in z)
  chunk-serial i (suc n) k crc e =
      serial_bits_split 8 (8 * n) k (m i) (chunk_of (bytes_from m (i + 1) n)) crc (bytes i)
        (omega arith)
      ∙ ap (serial_bits (8 * n) (chunk_of (bytes_from m (i + 1) n)))
          (sym (update-serial crc (m i) (bytes i)))
      ∙ chunk-serial (i + 1) n (8 * n) (update crc (m i)) refl

  chunk-lt : (i : ℕ) → chunk_of (bytes_from m i 8) < 2 ^ 64
  chunk-lt i =
      let j1 : ℕ = i + 1 in
      let j2 : ℕ = j1 + 1 in
      let j3 : ℕ = j2 + 1 in
      let j4 : ℕ = j3 + 1 in
      let j5 : ℕ = j4 + 1 in
      let j6 : ℕ = j5 + 1 in
      let j7 : ℕ = j6 + 1 in
      omega (arith, bytes i, bytes j1, bytes j2, bytes j3, bytes j4, bytes j5, bytes j6, bytes j7)

  software_loop_split :
      (i j n k crc : ℕ)
      → k ≡ j + n
      → software_loop m i k crc ≡ software_loop m (i + j) n (software_loop m i j crc)
  unfolding software_loop
  software_loop_split i zero n k crc e =
      let ei : i ≡ i + 0 = omega arith in
      let ek : k ≡ n = omega arith in ap₂ (λ (t u : ℕ). software_loop m t u crc) ei ek
  software_loop_split i (suc j) n zero crc e = absurd (omega arith)
  software_loop_split i (suc j) n (suc k) crc e =
      software_loop_split (i + 1) j n k (update crc (m i)) (omega arith)
      ∙ ap (λ (t : ℕ). software_loop m t n (software_loop m (i + 1) j (update crc (m i))))
          (omega arith)

  module _ (cpu : Cpu) (manual : IsCrc32c cpu) where
    tail_loop_lem : (i n crc : ℕ) → crc < 2 ^ 32 → tail_loop cpu m i n crc ≡ software_loop m i n crc
    unfolding tail_loop software_loop
    tail_loop_lem i zero crc h = refl
    tail_loop_lem i (suc n) crc h =
        ap (tail_loop cpu m (i + 1) n)
          (manual.u8_lem crc (m i) h (bytes i) ∙ sym (update-serial crc (m i) (bytes i)))
        ∙ tail_loop_lem (i + 1) n (update crc (m i)) (software_loop-lt m i 1 crc h)

    chunk_step :
        (i crc : ℕ)
        → crc < 2 ^ 32
        → cpu.crc32_u64 crc (chunk_of (bytes_from m i 8)) % 2 ^ 32 ≡ software_loop m i 8 crc
    chunk_step i crc h = ground (
      arith,
      manual.u64_lem crc (chunk_of (bytes_from m i 8)) h (chunk-lt i),
      chunk-serial i 8 64 crc refl,
      software_loop-lt m i 8 crc h,
    )

    chunk_loop_lem :
        (i n rest k crc : ℕ)
        → k ≡ n * 8 + rest
        → crc < 2 ^ 32
        → chunk_loop cpu m i n rest crc ≡ software_loop m i k crc
    unfolding chunk_loop
    chunk_loop_lem i zero rest k crc e h =
        tail_loop_lem i rest crc h ∙ ap (λ (t : ℕ). software_loop m i t crc) (omega arith)
    chunk_loop_lem i (suc n) rest k crc e h =
        ap (chunk_loop cpu m (i + 8) n rest) (chunk_step i crc h)
        ∙ chunk_loop_lem (i + 8) n rest (n * 8 + rest) (software_loop m i 8 crc) refl
            (software_loop-lt m i 8 crc h)
        ∙ sym (software_loop_split i 8 (n * 8 + rest) k crc (omega arith))

    -- On a processor whose instructions do what the manual says, `crc32c` returns the same checksum
    -- of any bytes with them as without.
    pub crc32c_on_lem : (len : ℕ) → crc32c_on cpu m len ≡ crc32c m len
    unfolding crc32c_on crc32c
    crc32c_on_lem len =
        ground
          (arith, chunk_loop_lem 0 (len / 8) (len % 8) len 0xFFFFFFFF (omega arith) (omega arith))
