-- ===== src/Registry/Paths.antt =====
-- How ensurePath takes a path apart, and that it ends.
use my_rpc_project_v.Base.{
  ℕ, zero, suc, ◌≤◌, ◌<◌, ◌≡◌, ◌⊎◌, inl, inr, refl, arith, [], ◌∷◌, none, some, Bool, false, Bytes,
  length, Option-cases, if◌then◌else◌,
}
use my_rpc_project_v.Zookeeper.{Zookeeper, child}
use my_rpc_project_v.Registry.{split_last, parent_of, ensure_here, ensure_loop}

split_last-child :
    (q r : Bytes)
    → (split_last (child q r) ≡ some (q, r))
      ⊎ ((a : Bytes) × (b : Bytes) × (split_last (child q r) ≡ some (child q a, b)))
unfolding split_last
split_last-child [] r = elim (Option-cases (split_last r)) [
  | inl e ↦ inl (rw e refl)
  | inr ((a, b), e) ↦ inr (a, b, rw e refl)
]
split_last-child (x ∷ q) r = elim (split_last-child q r) [
  | inl e ↦ inl (rw e refl)
  | inr (a, b, e) ↦ inr (a, b, rw e refl)
]

-- What stands before a slash is the parent, or stands before a slash of the parent.
pub parent_of-child :
    (x : ℕ) (q r : Bytes)
    → (parent_of (child (x ∷ q) r) ≡ some (x ∷ q))
      ⊎ ((a : Bytes) × (parent_of (child (x ∷ q) r) ≡ some (child (x ∷ q) a)))
unfolding parent_of
parent_of-child x q r = elim (split_last-child (x ∷ q) r) [
  | inl e ↦ inl (rw e refl)
  | inr (a, b, e) ↦ inr (a, rw e refl)
]

split_last_shorter :
    (path front last : Bytes) → split_last path ≡ some (front, last) → length front < length path
unfolding split_last
split_last_shorter [] front last h = ground arith
split_last_shorter (x ∷ xs) front last h = elim (Option-cases (split_last xs)) [
  | inl e ↦ ground arith
  | inr ((a, b), e) ↦ ground (arith, split_last_shorter xs a b e)
]

pub parent_of_shorter :
    (path parent : Bytes)
    → parent_of path ≡ some parent
    → (0 < length parent) × (length parent < length path)
unfolding parent_of
parent_of_shorter path parent h = elim (Option-cases (split_last path)) [
  | inl e ↦ ground arith
  | inr (([], last), e) ↦ ground arith
  | inr ((x ∷ front, last), e) ↦ ground (arith, split_last_shorter path (x ∷ front) last e)
]

module _ (Z : Zookeeper) where
  pub ensure_loop_top :
      (fuel : ℕ) (path : Bytes) (s : Z.State)
      → parent_of path ≡ none
      → ensure_loop Z (suc fuel) path s ≡ some (ensure_here Z path s)
  unfolding ensure_loop
  ensure_loop_top fuel path s e = rw (e, ensure_loop) refl

  pub ensure_loop_below :
      (fuel : ℕ) (path parent : Bytes) (s s1 : Z.State) (made : Bool)
      → parent_of path ≡ some parent
      → ensure_loop Z fuel parent s ≡ some (made, s1)
      → ensure_loop Z (suc fuel) path s ≡ some (if made then ensure_here Z path s1 else (false, s1))
  unfolding ensure_loop
  ensure_loop_below fuel path parent s s1 made e f = rw (e, ensure_loop) (rw f refl)

  -- Fuel for each byte of the path is enough.
  pub ensure_loop_total :
      (fuel : ℕ) (path : Bytes) (s : Z.State)
      → 0 < length path
      → length path ≤ fuel
      → (r : Bool × Z.State) × (ensure_loop Z fuel path s ≡ some r)
  ensure_loop_total zero path s h k = absurd (omega arith)
  ensure_loop_total (suc fuel) path s h k = elim (Option-cases (parent_of path)) [
    | inl e ↦ (ensure_here Z path s, ensure_loop_top fuel path s e)
    | inr (parent, e) ↦
        let sizes = parent_of_shorter path parent e in
        let ((made, s1), f) = ensure_loop_total fuel parent s sizes.0 (omega arith) in
        (
          if made then ensure_here Z path s1 else (false, s1),
          ensure_loop_below fuel path parent s s1 made e f,
        )
  ]
