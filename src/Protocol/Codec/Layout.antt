-- ===== src/Protocol/Codec/Layout.antt =====
-- What `encode_frame` writes: the 36 bytes of the fields, their checksum and the payload.
use av_hil_validation_platfo.Base.Lists.{drop, replicate, get_or-append_left}
use av_hil_validation_platfo.Base.Memory.{Memory, load, bytes_from, byte_at}
use av_hil_validation_platfo.Base.Tests.{ltb_of_le, ==_of_ne, ◌==◌, if◌then◌else◌}
use av_hil_validation_platfo.Protocol.Crc.{crc32c}
use av_hil_validation_platfo.Protocol.Crc.Detect.{crc32c-agree}
use av_hil_validation_platfo.Protocol.Frame
use av_hil_validation_platfo.Protocol.Frame.{SensorType, sensor_code}
use av_hil_validation_platfo.Protocol.Codec.{put_fields, encode_frame}
use av_hil_validation_platfo.Base.{
  ℕ, zero, suc, ◌+◌, ◌%◌, ◌^◌, ◌≤◌, ◌≡◌, refl, ap, some, List, [], ◌∷◌, ◌++◌, append-nil, arith,
}

abbrev pub le2 : ℕ → List ℕ
le2 v = byte_at v 0 ∷ byte_at v 1 ∷ []

abbrev pub le4 : ℕ → List ℕ
le4 v = byte_at v 0 ∷ byte_at v 1 ∷ byte_at v 2 ∷ byte_at v 3 ∷ []

abbrev pub le8 : ℕ → List ℕ
le8 v =
    byte_at v 0
    ∷ byte_at v 1
    ∷ byte_at v 2
    ∷ byte_at v 3
    ∷ byte_at v 4
    ∷ byte_at v 5
    ∷ byte_at v 6
    ∷ byte_at v 7
    ∷ []

abbrev pub payload_crc : Memory → ℕ → ℕ
payload_crc payload len = crc32c payload len

-- A conditional that tells zero apart only to spell it `0`.
pub if_zero {ℓ} : {A : Type ℓ} (f : ℕ → A) (n : ℕ) → (if n == 0 then f 0 else f n) ≡ f n
if_zero f zero = refl
if_zero f (suc n) = rw (==_of_ne (suc n) 0 (omega arith))

drop_zeros : (n : ℕ) → drop n (replicate n zero) ≡ []
drop_zeros zero = refl
drop_zeros (suc n) = drop_zeros n

-- Copying no bytes over no bytes is the same as not copying.
copy_branch :
    (src : Memory) (n : ℕ) (f : List ℕ → List ℕ)
    → (if n == 0 then f (replicate n 0) else f (bytes_from src 0 n ++ drop n (replicate n 0)))
      ≡ f (bytes_from src 0 n)
copy_branch src zero f = refl
copy_branch src (suc n) f = rw (==_of_ne (suc n) 0 (omega arith), drop_zeros n, append-nil)

module _ (t : SensorType) (sequence timestamp_ns flags : ℕ) (payload : Memory) (len : ℕ) where
  abbrev pub fields : List ℕ
  fields =
      le4 Frame.magic
      ++ (le2 Frame.version
          ++ (le2 (sensor_code t)
              ++ (le2 flags
                  ++ (le2 Frame.header_size
                      ++ (le8 sequence
                          ++ (le8 timestamp_ns
                              ++ (le4 (len % 2 ^ 32) ++ le4 (crc32c payload len))))))))

  abbrev pub frame : List ℕ
  frame = fields ++ (le4 (crc32c (load fields) 36) ++ bytes_from payload 0 len)

  replicate_add : (j n k : ℕ) → k ≡ j + n → replicate k zero ≡ replicate j zero ++ replicate n zero
  replicate_add zero n k e = ap (λ (t : ℕ). replicate t zero) (let z : k ≡ n = omega arith in z)
  replicate_add (suc j) n zero e = absurd (omega arith)
  replicate_add (suc j) n (suc k) e =
      ap (λ (l : List ℕ). zero ∷ l) (replicate_add j n k (omega arith))

  put_fields_lem :
      put_fields (replicate (40 + len) 0) t sequence timestamp_ns flags payload len
      ≡ fields ++ (0 ∷ 0 ∷ 0 ∷ 0 ∷ replicate len 0)
  unfolding put_fields
  put_fields_lem = rw (replicate_add 40 len (40 + len) refl, if_zero (λ n. crc32c payload n) len)

  -- The header's checksum is that of its 36 bytes, whatever follows them.
  pub header_crc : (rest : List ℕ) → crc32c (load (fields ++ rest)) 36 ≡ crc32c (load fields) 36
  header_crc rest =
      crc32c-agree (load (fields ++ rest)) (load fields) 36
        (λ j h. get_or-append_left fields rest j 0 h)

  -- Of a payload within the limit, the frame is its fields, their checksum and its bytes.
  pub encode_frame_lem :
      len ≤ Frame.max_payload → encode_frame t sequence timestamp_ns flags payload len ≡ some frame
  unfolding encode_frame
  encode_frame_lem h =
      rw
        (
          ltb_of_le Frame.max_payload len h,
          put_fields_lem,
          header_crc (0 ∷ 0 ∷ 0 ∷ 0 ∷ replicate len 0),
        )
        (ap some (copy_branch payload len (λ l. fields ++ (le4 (crc32c (load fields) 36) ++ l))))
