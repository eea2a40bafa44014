-- ===== src/Bridge/Compression.antt =====
-- src/network_bridge.cpp: `compress` and `decompress`, around the functions of zstd.
use av_hil_validation_platfo.Base.Lists.{length, drop, replicate}
use av_hil_validation_platfo.Base.{
  ℕ, ◌≡◌, Option, none, some, List, [], ◌∷◌, ◌++◌, refl, append-nil,
}

-- The answers of `ZSTD_getFrameContentSize`.
pub data ContentSize : Type 0 where
  known : ℕ → ContentSize
  content_error content_unknown : ContentSize

-- The functions of zstd that are called. Those that write into a buffer take its capacity and give the
-- bytes that they wrote, or none for an error code.
pub record Zstd : Type 0 where
  pub compress_bound : ℕ → ℕ
  pub compress : ℕ → List ℕ → ℕ → Option (List ℕ)
  pub content_size : List ℕ → ContentSize
  pub decompress : ℕ → List ℕ → Option (List ℕ)

module _ (zstd : Zstd) where
  -- None is the `std::runtime_error`.
  unfoldable pub compress : List ℕ → ℕ → Option (List ℕ)
  compress l level = zstd.compress (zstd.compress_bound (length l)) l level

  -- The output vector has the size that the frame names, whatever was written into it.
  abbrev pub fill : ℕ → Option (List ℕ) → Option (List ℕ)
  fill size none = none
  fill size (some written) = some (written ++ drop (length written) (replicate size 0))

  abbrev pub decompress_sized : ContentSize → List ℕ → Option (List ℕ)
  decompress_sized content_error l = none
  decompress_sized content_unknown l = none
  decompress_sized (known size) l = fill size (zstd.decompress size l)

  unfoldable pub decompress : List ℕ → Option (List ℕ)
  decompress l = decompress_sized (zstd.content_size l) l

-- What zstd documents of its frames: of one that `ZSTD_compress` made, the content size is known, and
-- `ZSTD_decompress` gives the content back.
abbrev pub RestoresContent : Zstd → Type 0
RestoresContent zstd =
    (capacity : ℕ) (l c : List ℕ) (level : ℕ)
    → zstd.compress capacity l level ≡ some c
    → (zstd.content_size c ≡ known (length l)) × (zstd.decompress (length l) c ≡ some l)

drop_all : (l : List ℕ) → drop {A = ℕ} (length l) (replicate (length l) 0) ≡ []
drop_all [] = refl
drop_all (x ∷ l) = drop_all l

pub decompress-compress :
    (zstd : Zstd) (l c : List ℕ) (level : ℕ)
    → RestoresContent zstd
    → compress zstd l level ≡ some c
    → decompress zstd c ≡ some l
unfolding compress decompress
decompress-compress zstd l c level law h =
    let back = law (zstd.compress_bound (length l)) l c level h in
    rw (back.0, back.1, drop_all l, append-nil l) refl
