-- ===== src/Transport/Stream/Numbers.antt =====
-- The numbers of thrift_stream_queue.hpp, pushed and read.
use av_hil_validation_platfo.Base.Bits.{or_fields, or_comm}
use av_hil_validation_platfo.Base.Memory.{byte_at}
use av_hil_validation_platfo.Transport.Stream.{
  QueueStream, ReadState, filled, read_loop, read_bytes, shift_in, number_of, push_uint16,
  push_uint32, push_bytes,
}
use av_hil_validation_platfo.Base.{
  ℕ, ◌+◌, ◌*◌, ◌/◌, ◌%◌, ◌^◌, ◌<◌, ◌≡◌, refl, ap, ◌∙◌, bit_or, Option, none, some, List, [], ◌∷◌,
  arith,
}

shift_in_lem :
    (w b x s : ℕ)
    → b * 2 ^ 8 % 2 ^ w ≡ b * 2 ^ 8
    → x < 2 ^ 8
    → s ≡ b * 2 ^ 8 + x
    → shift_in w b x ≡ s
shift_in_lem w b x s fits small e =
    ap (λ (t : ℕ). bit_or t x) fits
    ∙ or_comm (b * 2 ^ 8) x
    ∙ or_fields 8 x b small
    ∙ omega (arith, e)

pub number_of_2 : (v : ℕ) → v < 2 ^ 16 → number_of 16 (byte_at v 1 ∷ byte_at v 0 ∷ []) ≡ v
number_of_2 v h =
    shift_in_lem 16 (byte_at v 1) (byte_at v 0) v (omega arith) (omega arith) (omega (arith, h))

four_bytes :
    (w v : ℕ)
    → (v / 2 ^ 24 % 2 ^ 8 * 2 ^ 8 % 2 ^ w ≡ v / 2 ^ 24 % 2 ^ 8 * 2 ^ 8)
    → (v / 2 ^ 16 % 2 ^ 16 * 2 ^ 8 % 2 ^ w ≡ v / 2 ^ 16 % 2 ^ 16 * 2 ^ 8)
    → (v / 2 ^ 8 % 2 ^ 24 * 2 ^ 8 % 2 ^ w ≡ v / 2 ^ 8 % 2 ^ 24 * 2 ^ 8)
    → number_of w (byte_at v 3 ∷ byte_at v 2 ∷ byte_at v 1 ∷ byte_at v 0 ∷ []) ≡ v % 2 ^ 32
four_bytes w v f1 f2 f3 =
    ap (λ (t : ℕ). shift_in w (shift_in w t (byte_at v 1)) (byte_at v 0))
      (shift_in_lem w (byte_at v 3) (byte_at v 2) (v / 2 ^ 16 % 2 ^ 16) f1 (omega arith)
        (omega arith))
    ∙ ap (λ (t : ℕ). shift_in w t (byte_at v 0))
        (shift_in_lem w (v / 2 ^ 16 % 2 ^ 16) (byte_at v 1) (v / 2 ^ 8 % 2 ^ 24) f2 (omega arith)
          (omega arith))
    ∙ shift_in_lem w (v / 2 ^ 8 % 2 ^ 24) (byte_at v 0) (v % 2 ^ 32) f3 (omega arith) (omega arith)

pub number_of_4 :
    (v : ℕ)
    → v < 2 ^ 32
    → number_of 32 (byte_at v 3 ∷ byte_at v 2 ∷ byte_at v 1 ∷ byte_at v 0 ∷ []) ≡ v
number_of_4 v h = four_bytes 32 v (omega arith) (omega arith) (omega arith) ∙ omega (arith, h)

-- What a read of a number gives, if it was not blocked.
abbrev pub answer : ℕ → ReadState × QueueStream → Option ℕ
answer w (filled bytes, s) = some (number_of w bytes)
answer w _ = none

-- Numbers of 16 and 32 bits that are pushed one after the other into an empty queue are read back in
-- that order, whatever is pushed after them, which is what is left.
pub read_bytes-push :
    (s : QueueStream) (a b : ℕ) (rest : List ℕ)
    → s.queue ≡ []
    → a < 2 ^ 16
    → b < 2 ^ 32
    → let r1 = read_bytes (push_bytes (push_uint32 (push_uint16 s a) b) rest) 2 in
      let r2 = read_bytes r1.1 4 in
      (answer 16 r1 ≡ some a) × (answer 32 r2 ≡ some b) × (r2.1.queue ≡ rest)
unfolding read_bytes read_loop
read_bytes-push s a b rest e h k =
    rw (e) (ap some (number_of_2 a h), ap some (number_of_4 b k), refl)
