-- ===== src/Registry/Built.antt =====
-- What ensurePath and createNode leave behind in ZooKeeper.
use mathlib.Core.Option.{some-injective}
use my_rpc_project_v.Base.{
  ℕ, zero, suc, ◌≡◌, ◌∙◌, inl, inr, refl, sym, ap, arith, [], ◌∷◌, none, some, Bool, true, false,
  Bytes, length, Bool-cases, subst, Option-cases, if◌then◌else◌, ◌≤◌, ◌<◌,
}
use my_rpc_project_v.Zookeeper.{
  Zookeeper, IsLawful, IsKept, Present, Node, child, Answer, ok, no_node, node_exists, other_error,
}
use my_rpc_project_v.Registry.{
  Registry, parent_of, ensure_found, ensure_here, ensure_loop, ensure_path, is_made, has_handle,
}
use my_rpc_project_v.Registry.Paths.{
  parent_of-child, parent_of_shorter, ensure_loop_total, ensure_loop_top, ensure_loop_below,
}

module _ (Z : Zookeeper) where
  -- The path itself, and all that stands in front of one of its slashes.
  abbrev pub Built : Z.State → Bytes → Type 0
  Built s path =
      Present Z s path × ((x : ℕ) (q r : Bytes) → path ≡ child (x ∷ q) r → Present Z s (x ∷ q))

  -- Every node is still there, with what it held.
  abbrev pub Keeps : Z.State → Z.State → Type 0
  Keeps s s' = (other : Bytes) (n : Node) → Z.value s other ≡ some n → Z.value s' other ≡ some n

module _ (Z : Zookeeper) (lawful : IsLawful Z) (kept : IsKept Z) where
  pub create_made :
      (s : Z.State) (path text : Bytes) (flag : Bool)
      → is_made (Z.create s path text flag).0 ≡ true
      → Present Z (Z.create s path text flag).1 path
  create_made s path text flag made = by_answer (Z.create s path text flag).0 refl made
    where
      by_answer :
          (a : Answer)
          → (Z.create s path text flag).0 ≡ a
          → is_made a ≡ true
          → Present Z (Z.create s path text flag).1 path
      by_answer ok e m =
          (record { contents = text; ephemeral = flag }, lawful.create_ok s path text flag e)
      by_answer node_exists e m = lawful.create_exists s path text flag e
      by_answer no_node e m = ground arith
      by_answer other_error e m = ground arith

  ensure_here_made :
      (path : Bytes) (s : Z.State)
      → (ensure_here Z path s).0 ≡ true
      → Present Z (ensure_here Z path s).1 path
  unfolding ensure_here
  ensure_here_made path s made = by_answer (Z.exists s path).0 refl made
    where
      by_answer :
          (a : Answer)
          → (Z.exists s path).0 ≡ a
          → (ensure_found Z path a (Z.exists s path).1).0 ≡ true
          → Present Z (ensure_found Z path a (Z.exists s path).1).1 path
      by_answer ok e m = lawful.exists_ok s path e
      by_answer no_node e m = create_made (Z.exists s path).1 path [] false m
      by_answer node_exists e m = ground arith
      by_answer other_error e m = ground arith

  ensure_here_kept :
      (path other : Bytes) (s : Z.State) (n : Node)
      → Z.value s other ≡ some n
      → Z.value (ensure_here Z path s).1 other ≡ some n
  unfolding ensure_here
  ensure_here_kept path other s n h = by_answer (Z.exists s path).0
    where
      there : Z.value (Z.exists s path).1 other ≡ some n
      there = kept.exists_kept s path other n h

      by_answer :
          (a : Answer) → Z.value (ensure_found Z path a (Z.exists s path).1).1 other ≡ some n
      by_answer ok = there
      by_answer no_node = kept.create_kept (Z.exists s path).1 path [] other false n there
      by_answer node_exists = there
      by_answer other_error = there

  ensure_loop_kept :
      (fuel : ℕ) (path other : Bytes) (s : Z.State) (n : Node) (r : Bool × Z.State)
      → 0 < length path
      → length path ≤ fuel
      → ensure_loop Z fuel path s ≡ some r
      → Z.value s other ≡ some n
      → Z.value r.1 other ≡ some n
  ensure_loop_kept zero path other s n r h k e v = absurd (omega arith)
  ensure_loop_kept (suc fuel) path other s n r h k e v = elim (Option-cases (parent_of path)) [
    | inl top ↦
        subst (λ (o : Bool × Z.State). Z.value o.1 other ≡ some n)
          (some-injective _ _ (sym (ensure_loop_top Z fuel path s top) ∙ e))
          (ensure_here_kept path other s n v)
    | inr (parent, below) ↦
        let sizes = parent_of_shorter path parent below in
        let ((made, s1), f) = ensure_loop_total Z fuel parent s sizes.0 (omega arith) in
        let there = ensure_loop_kept fuel parent other s n (made, s1) sizes.0 (omega arith) f v in
        subst (λ (o : Bool × Z.State). Z.value o.1 other ≡ some n)
          (some-injective _ _ (sym (ensure_loop_below Z fuel path parent s s1 made below f) ∙ e))
          (after made s1 there)
  ]
    where
      after :
          (made : Bool) (s1 : Z.State)
          → Z.value s1 other ≡ some n
          → Z.value (if made then ensure_here Z path s1 else (false, s1)).1 other ≡ some n
      after true s1 there = ensure_here_kept path other s1 n there
      after false s1 there = there

  Built-step :
      (path parent : Bytes) (made : Bool) (s1 : Z.State)
      → parent_of path ≡ some parent
      → (made ≡ true → Built Z s1 parent)
      → (if made then ensure_here Z path s1 else (false, s1)).0 ≡ true
      → Built Z (if made then ensure_here Z path s1 else (false, s1)).1 path
  Built-step path parent false s1 below ih done = ground arith
  Built-step path parent true s1 below ih done = (ensure_here_made path s1 done, fronts)
    where
      up : (q : Bytes) → Present Z s1 q → Present Z (ensure_here Z path s1).1 q
      up q (n, v) = (n, ensure_here_kept path q s1 n v)

      fronts :
          (x : ℕ) (q r : Bytes)
          → path ≡ child (x ∷ q) r
          → Present Z (ensure_here Z path s1).1 (x ∷ q)
      fronts x q r e = elim (parent_of-child x q r) [
        | inl p ↦ up (x ∷ q) (
            subst (Present Z s1) (some-injective _ _ (sym below ∙ (ap parent_of e ∙ p)))
              (ih refl).0)
        | inr (a, p) ↦
            up (x ∷ q) ((ih refl).1 x q a (some-injective _ _ (sym below ∙ (ap parent_of e ∙ p))))
      ]

  no_front :
      (path : Bytes) (x : ℕ) (q r : Bytes)
      → parent_of path ≡ none
      → path ≡ child (x ∷ q) r
      → (s' : Z.State) → Present Z s' (x ∷ q)
  no_front path x q r top e s' = elim (parent_of-child x q r) [
    | inl p ↦ absurd (impossible _ (sym top ∙ (ap parent_of e ∙ p)))
    | inr (a, p) ↦ absurd (impossible _ (sym top ∙ (ap parent_of e ∙ p)))
  ]
    where
      impossible : (b : Bytes) → none ≡ some b → ⊥
      impossible b h = ground arith

  ensure_loop-Built :
      (fuel : ℕ) (path : Bytes) (s : Z.State) (r : Bool × Z.State)
      → 0 < length path
      → length path ≤ fuel
      → ensure_loop Z fuel path s ≡ some r
      → r.0 ≡ true
      → Built Z r.1 path
  ensure_loop-Built zero path s r h k e done = absurd (omega arith)
  ensure_loop-Built (suc fuel) path s r h k e done = elim (Option-cases (parent_of path)) [
    | inl top ↦
        let same : ensure_here Z path s ≡ r =
          some-injective _ _ (sym (ensure_loop_top Z fuel path s top) ∙ e) in
        subst (λ (o : Bool × Z.State). Built Z o.1 path) same
          (
            ensure_here_made path s (ap (λ (o : Bool × Z.State). o.0) same ∙ done),
            λ x q r e. no_front path x q r top e _,
          )
    | inr (parent, below) ↦
        let sizes = parent_of_shorter path parent below in
        let ((made, s1), f) = ensure_loop_total Z fuel parent s sizes.0 (omega arith) in
        let same : (if made then ensure_here Z path s1 else (false, s1)) ≡ r =
          some-injective _ _ (sym (ensure_loop_below Z fuel path parent s s1 made below f) ∙ e) in
        subst (λ (o : Bool × Z.State). Built Z o.1 path) same
          (Built-step path parent made s1 below
            (ensure_loop-Built fuel parent s (made, s1) sizes.0 (omega arith) f)
            (ap (λ (o : Bool × Z.State). o.0) same ∙ done))
  ]

  -- ensurePath returns for every path. Nothing that was there is removed or changed; where it returns
  -- true for a path that is not empty, the node and all the nodes above it are there.
  pub ensure_path_builds :
      (r : Registry) (x : ℕ) (path : Bytes) (s : Z.State)
      → (o : Bool × Z.State) × (ensure_path Z r (x ∷ path) s ≡ some o)
        × Keeps Z s o.1
        × (o.0 ≡ true → Built Z o.1 (x ∷ path))
  unfolding ensure_path
  ensure_path_builds r x path s = elim (Bool-cases (has_handle r)) [
    | inl e ↦
        let (o, run) =
          ensure_loop_total Z (length (x ∷ path)) (x ∷ path) s (omega arith) (omega arith) in
        (
          o,
          rw (e, ensure_path) run,
          (λ other n v.
              ensure_loop_kept (length (x ∷ path)) (x ∷ path) other s n o (omega arith)
                (omega arith) run v),
          ensure_loop-Built (length (x ∷ path)) (x ∷ path) s o (omega arith) (omega arith) run,
        )
    | inr e ↦ ((false, s), rw (e, ensure_path) refl, (λ other n v. v), (λ done. ground arith))
  ]

  pub Built-create :
      (path other text : Bytes) (flag : Bool) (s : Z.State)
      → Built Z s path
      → Built Z (Z.create s other text flag).1 path
  Built-create path other text flag s (here, fronts) =
      (up path here, λ x q r e. up (x ∷ q) (fronts x q r e))
    where
      up : (q : Bytes) → Present Z s q → Present Z (Z.create s other text flag).1 q
      up q (n, v) = (n, kept.create_kept s other text q flag n v)
