-- ===== src/Protocol/Crc.antt =====
-- include/sensorforge/protocol/crc32c.hpp: CRC32C, in software by a table and in hardware by the
-- instructions of the processor, which are parameters here.
pub mod Reference
pub mod Detect
pub mod Hardware
use av_hil_validation_platfo.Base.Tests.{◌==◌, if◌then◌else◌}
use av_hil_validation_platfo.Base.Memory.{Memory, bytes_from}
use av_hil_validation_platfo.Base.{
  ℕ, zero, suc, ◌+◌, ◌*◌, ◌/◌, ◌%◌, ◌^◌, ◌<◌, bit_xor, Bool, true, false, List, [], ◌∷◌,
}

-- the reflected polynomial
abbrev pub poly : ℕ
poly = 0x82F63B78

-- One round of the inner loop of `make_table`.
unfoldable pub bit_step : ℕ → ℕ
bit_step crc = if (crc % 2) == 1 then bit_xor (crc / 2) poly else crc / 2

pub bit_steps : ℕ → ℕ → ℕ
bit_steps zero crc = crc
bit_steps (suc k) crc = bit_steps k (bit_step crc)

-- `kTable`, which `make_table` fills, as the function of its index.
pub table : ℕ → ℕ
table i = bit_steps 8 i

-- The body of the loop of `crc32c_software`.
pub update : ℕ → ℕ → ℕ
update crc byte = bit_xor (table (bit_xor crc byte % 2 ^ 8)) (crc / 2 ^ 8)

-- The loop from index `i`, for the rounds that are left.
pub software_loop : Memory → ℕ → ℕ → ℕ → ℕ
software_loop m i zero crc = crc
software_loop m i (suc n) crc = software_loop m (i + 1) n (update crc (m i))

pub crc32c_software : ℕ → Memory → ℕ → ℕ
unfolding software_loop update table bit_steps bit_step
crc32c_software crc m len = software_loop m 0 len crc

-- `_mm_crc32_u8` and `_mm_crc32_u64`, and whether the processor has them.
pub record Cpu : Type 0 where
  pub has_sse42 : Bool
  pub crc32_u8 : ℕ → ℕ → ℕ
  pub crc32_u64 : ℕ → ℕ → ℕ

-- The `memcpy` of eight bytes into a `uint64_t`, on the little-endian processor that has SSE4.2.
abbrev pub chunk_of : List ℕ → ℕ
chunk_of [] = 0
chunk_of (b ∷ bs) = b + 2 ^ 8 * chunk_of bs

-- The second loop of `crc32c_hw`: the bytes that are left, one at a time.
pub tail_loop : Cpu → Memory → ℕ → ℕ → ℕ → ℕ
tail_loop cpu m i zero crc = crc
tail_loop cpu m i (suc n) crc = tail_loop cpu m (i + 1) n (cpu.crc32_u8 crc (m i))

-- The first loop, for the `i + 8 <= len` rounds, and then the second.
pub chunk_loop : Cpu → Memory → ℕ → ℕ → ℕ → ℕ → ℕ
chunk_loop cpu m i zero rest crc = tail_loop cpu m i rest crc
chunk_loop cpu m i (suc n) rest crc =
    chunk_loop cpu m (i + 8) n rest (cpu.crc32_u64 crc (chunk_of (bytes_from m i 8)) % 2 ^ 32)

pub crc32c_hw : Cpu → ℕ → Memory → ℕ → ℕ
unfolding chunk_loop tail_loop
crc32c_hw cpu crc m len = chunk_loop cpu m 0 (len / 8) (len % 8) crc

-- The public function: the start value, the dispatch and the final XOR.
pub crc32c_on : Cpu → Memory → ℕ → ℕ
unfolding crc32c_hw crc32c_software
crc32c_on cpu m len =
    bit_xor
      (if cpu.has_sse42 then crc32c_hw cpu 0xFFFFFFFF m len else crc32c_software 0xFFFFFFFF m len)
      0xFFFFFFFF

-- The public function on a processor without the instructions.
unfoldable pub crc32c : Memory → ℕ → ℕ
unfolding crc32c_software
crc32c m len = bit_xor (crc32c_software 0xFFFFFFFF m len) 0xFFFFFFFF
