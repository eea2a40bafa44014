-- ===== src/Replay/Record/Layout.antt =====
-- What `encode_record` writes: 30 bytes of fields, the payload and the checksum of both.
use av_hil_validation_platfo.Base.Lists.{length, length-append}
use av_hil_validation_platfo.Base.Memory.{Memory, load, bytes_from, length-bytes_from}
use av_hil_validation_platfo.Base.Tests.{==_of_ne, ◌==◌, if◌then◌else◌}
use av_hil_validation_platfo.Protocol.Crc.{crc32c}
use av_hil_validation_platfo.Protocol.Codec.Layout.{le2, le4, le8, if_zero}
use av_hil_validation_platfo.Protocol.Frame.{SensorType, sensor_code}
use av_hil_validation_platfo.Replay.Record.{push_u32, push_fields, encode_record}
use av_hil_validation_platfo.Base.{
  ℕ, zero, suc, ◌+◌, ◌%◌, ◌^◌, ◌≡◌, ap, ◌∙◌, List, [], ◌∷◌, ◌++◌, append-nil, append_assoc, arith,
}

-- The last step of `encode_record`, the checksum of all that was written.
abbrev finish : List ℕ → List ℕ
finish l = push_u32 l (crc32c (load l) (length l))

module _ (timestamp_ns : ℕ) (t : SensorType) (sequence : ℕ) (payload : Memory) (len : ℕ) where
  abbrev pub record_fields : List ℕ
  record_fields =
      le4 ((34 + len) % 2 ^ 32)
      ++ (le8 timestamp_ns
          ++ (le2 (sensor_code t)
              ++ (le8 sequence ++ (le4 (len % 2 ^ 32) ++ le4 (crc32c payload len)))))

  abbrev pub record_body : List ℕ
  record_body = record_fields ++ bytes_from payload 0 len

  -- The checksum of the fields and the payload.
  abbrev pub record_crc : ℕ
  record_crc = crc32c (load record_body) (30 + len)

  abbrev pub record_bytes : List ℕ
  record_bytes = record_body ++ le4 record_crc

  push_fields_lem : push_fields timestamp_ns t sequence payload len ≡ record_fields
  unfolding push_fields
  push_fields_lem = rw (if_zero (λ n. crc32c payload n) len)

  insert_branch :
      (n : ℕ) (l : List ℕ)
      → (if n == 0 then l else l ++ bytes_from payload 0 n) ≡ l ++ bytes_from payload 0 n
  insert_branch zero l = rw append-nil
  insert_branch (suc n) l = rw (==_of_ne (suc n) 0 (omega arith))

  pub length-record_body : length record_body ≡ 30 + len
  length-record_body = omega (arith, length-bytes_from payload 0 len)

  push_four :
      (l : List ℕ) (a b c d : ℕ)
      → (((l ++ (a ∷ [])) ++ (b ∷ [])) ++ (c ∷ [])) ++ (d ∷ []) ≡ l ++ (a ∷ b ∷ c ∷ d ∷ [])
  push_four l a b c d = simp append_assoc

  pub encode_record_lem : encode_record timestamp_ns t sequence payload len ≡ record_bytes
  unfolding encode_record
  encode_record_lem =
      ap (λ (l : List ℕ). finish (if len == 0 then l else l ++ bytes_from payload 0 len))
        push_fields_lem
      ∙ ap finish (insert_branch len record_fields)
      ∙ push_four record_body _ _ _ _
      ∙ ap (λ (k : ℕ). record_body ++ le4 (crc32c (load record_body) k)) length-record_body

  pub length-record_bytes : length record_bytes ≡ 34 + len
  length-record_bytes =
      omega (arith, length-append record_body (le4 record_crc), length-record_body)
