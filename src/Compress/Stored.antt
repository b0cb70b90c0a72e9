-- ===== src/Compress/Stored.antt =====
-- A compression that only marks its source, as an example of libzstd's laws.
use my_rpc_project_v.Base.{
  ℕ, ◌+◌, ◌≡◌, refl, arith, [], ◌∷◌, Option, none, some, Bytes, length, leb, if◌then◌else◌,
}
use my_rpc_project_v.Compress.{Zstd, ZstdLaws}

abbrev stored_size : Bytes → Option ℕ
stored_size [] = none
stored_size (x ∷ xs) = some (length xs)

abbrev stored_content : ℕ → Bytes → Option Bytes
stored_content capacity [] = none
stored_content capacity (x ∷ xs) = if leb (length xs) capacity then some xs else none

abbrev store : ℕ → Bytes → ℕ → Option Bytes
store capacity src level = if leb (length src + 1) capacity then some (0x28 ∷ src) else none

abbrev pub stored : Zstd
stored = record {
  compress_bound = λ n. n + 1;
  compress = store;
  content_size = stored_size;
  decompress = stored_content;
}

store-eq :
    (capacity : ℕ) (src : Bytes) (level : ℕ) (frame : Bytes)
    → store capacity src level ≡ some frame
    → frame ≡ 0x28 ∷ src
store-eq capacity src level frame e = ground (arith, e)

pub stored-ZstdLaws : ZstdLaws stored
stored-ZstdLaws = record {
  compress_fits = λ src level bytes. (0x28 ∷ src, ground arith);
  frame_shape = λ capacity src level frame bytes e.
      rw (store-eq capacity src level frame e) ((omega arith, bytes), omega arith);
  frame_size = λ capacity src level frame bytes e. rw (store-eq capacity src level frame e) refl;
  frame_content =
      λ capacity src level frame bytes e. rw (store-eq capacity src level frame e) (ground arith);
}
