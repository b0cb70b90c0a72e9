-- ===== src/Compress.antt =====
-- rpc_src/compress_data: ZstdCompress over libzstd, which is a parameter. A result is the bytes left
-- in the output, or `none` where the method returns false; what the output holds then is not said.
pub mod Stored
use my_rpc_project_v.Base.{
  ℕ, ◌+◌, ◌≤◌, ◌<◌, ◌≡◌, refl, arith, List, [], ◌∷◌, Option, none, some, Bytes, IsBytes, length,
  ◌⊎◌, inl, inr, ◌∙◌,
}

-- Level, with the numbers that libzstd is given.
pub data Level : Type 0 where
  fastest default better best max : Level

unfoldable pub level_code : Level → ℕ
level_code fastest = 1
level_code default = 3
level_code better = 7
level_code best = 19
level_code max = 22

-- The functions of libzstd. `none` stands for an error code, and for content_size also for an
-- unknown size; the first number of compress and decompress is the capacity of the output.
pub record Zstd : Type 0 where
  pub compress_bound : ℕ → ℕ
  pub compress : ℕ → Bytes → ℕ → Option Bytes
  pub content_size : Bytes → Option ℕ
  pub decompress : ℕ → Bytes → Option Bytes

-- What libzstd documents for a source of bytes: with the room of compress_bound compression
-- succeeds; a frame consists of bytes, is not empty, carries the size of its content and decompresses to it.
pub record ZstdLaws (z : Zstd) : Type 0 where
  pub compress_fits :
      (src : Bytes) (level : ℕ)
      → IsBytes src
      → (frame : Bytes) × (z.compress (z.compress_bound (length src)) src level ≡ some frame)
  pub frame_shape :
      (capacity : ℕ) (src : Bytes) (level : ℕ) (frame : Bytes)
      → IsBytes src
      → z.compress capacity src level ≡ some frame
      → IsBytes frame × (0 < length frame)
  pub frame_size :
      (capacity : ℕ) (src : Bytes) (level : ℕ) (frame : Bytes)
      → IsBytes src
      → z.compress capacity src level ≡ some frame
      → z.content_size frame ≡ some (length src)
  pub frame_content :
      (capacity : ℕ) (src : Bytes) (level : ℕ) (frame : Bytes)
      → IsBytes src
      → z.compress capacity src level ≡ some frame
      → z.decompress (length src) frame ≡ some src

module _ (z : Zstd) where
  unfoldable pub compress_string : Bytes → Level → Option Bytes
  unfolding level_code
  compress_string [] level = some []
  compress_string (x ∷ xs) level =
      z.compress (z.compress_bound (length (x ∷ xs))) (x ∷ xs) (level_code level)

  unfoldable pub decompress_string : Bytes → Option Bytes
  decompress_string [] = some []
  decompress_string (x ∷ xs) = elim (z.content_size (x ∷ xs)) [
    | none ↦ none
    | some size ↦ z.decompress size (x ∷ xs)
  ]

  -- The pointer and its length are the bytes that it points to, or `none` where it is null.
  unfoldable pub compress_data : Option Bytes → Level → Option Bytes
  unfolding level_code
  compress_data none level = some []
  compress_data (some []) level = some []
  compress_data (some (x ∷ xs)) level =
      z.compress (z.compress_bound (length (x ∷ xs))) (x ∷ xs) (level_code level)

  unfoldable pub decompress_data : Option Bytes → Option Bytes
  decompress_data none = some []
  decompress_data (some []) = some []
  decompress_data (some (x ∷ xs)) = elim (z.content_size (x ∷ xs)) [
    | none ↦ none
    | some size ↦ z.decompress size (x ∷ xs)
  ]

module _ (z : Zstd) (laws : ZstdLaws z) where
  decompress-frame :
      (capacity : ℕ) (src : Bytes) (level : ℕ) (frame : Bytes)
      → IsBytes src
      → z.compress capacity src level ≡ some frame
      → decompress_string z frame ≡ some src
  unfolding decompress_string
  decompress-frame capacity src level [] bytes e =
      absurd (omega (arith, (laws.frame_shape capacity src level [] bytes e).1))
  decompress-frame capacity src level (x ∷ xs) bytes e =
      rw (laws.frame_size capacity src level (x ∷ xs) bytes e, decompress_string)
        (laws.frame_content capacity src level (x ∷ xs) bytes e)

  -- Whatever compress_string gives for bytes is bytes, empty only for an empty source, and decompresses to
  -- the source.
  pub compress_string-back :
      (src : Bytes) (level : Level) (frame : Bytes)
      → IsBytes src
      → compress_string z src level ≡ some frame
      → IsBytes frame × (decompress_string z frame ≡ some src) × ((0 < length frame) ⊎ (src ≡ []))
  unfolding compress_string
  compress_string-back [] level [] bytes e = (tt, unfold decompress_string in refl, inr refl)
  compress_string-back [] level (y ∷ ys) bytes e = absurd (ground arith)
  compress_string-back (x ∷ xs) level frame bytes e =
      let shape = laws.frame_shape _ (x ∷ xs) (level_code level) frame bytes e in
      (shape.0, decompress-frame _ (x ∷ xs) (level_code level) frame bytes e, inl shape.1)

  compress_succeeds :
      (src : Bytes) (level : Level)
      → IsBytes src
      → (frame : Bytes) × (compress_string z src level ≡ some frame)
  unfolding compress_string
  compress_succeeds [] level bytes = ([], refl)
  compress_succeeds (x ∷ xs) level bytes = laws.compress_fits (x ∷ xs) (level_code level) bytes

  compress_data-string :
      (src : Bytes) (level : Level) → compress_data z (some src) level ≡ compress_string z src level
  unfolding compress_data compress_string
  compress_data-string [] level = refl
  compress_data-string (x ∷ xs) level = refl

  decompress_data-string : (src : Bytes) → decompress_data z (some src) ≡ decompress_string z src
  unfolding decompress_data decompress_string
  decompress_data-string [] = refl
  decompress_data-string (x ∷ xs) = refl

  -- Under the laws of zstd: on any source of bytes and any level both forms of compression succeed
  -- with the same frame, and both forms of decompression give the source back from it.
  pub decompress-compress :
      (src : Bytes) (level : Level)
      → IsBytes src
      → (frame : Bytes) × (compress_string z src level ≡ some frame)
        × (compress_data z (some src) level ≡ some frame)
        × (decompress_string z frame ≡ some src)
        × (decompress_data z (some frame) ≡ some src)
  decompress-compress src level bytes =
      let (frame, e) = compress_succeeds src level bytes in
      let back = (compress_string-back src level frame bytes e).1 in
      (frame, e, compress_data-string src level ∙ e, back, decompress_data-string frame ∙ back)
