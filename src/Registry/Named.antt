-- ===== src/Registry/Named.antt =====
-- What the nodes below a service hold while servers are registered.
use mathlib.Core.Option.{some-injective}
use my_rpc_project_v.Base.{
  ℕ, zero, suc, ◌≡◌, ◌∙◌, inl, inr, sym, ap, arith, [], ◌∷◌, some, Bool, true, false, Bytes, length,
  length-append, Bool-cases, subst, Option-cases, if◌then◌else◌, ◌≤◌, ◌<◌,
}
use my_rpc_project_v.Zookeeper.{
  Zookeeper, AddsNamed, Node, child, Answer, ok, no_node, node_exists, other_error,
}
use my_rpc_project_v.Registry.{
  Registry, parent_of, ensure_found, ensure_here, ensure_loop, ensure_path, create_node, has_handle,
  registry_connected, register_service, service_path, instance_path,
}
use my_rpc_project_v.Registry.Paths.{
  parent_of_shorter, ensure_loop_total, ensure_loop_top, ensure_loop_below,
}

-- All nodes below the path hold their own name.
abbrev pub NamedBelow : (Z : Zookeeper) → Bytes → Z.State → Type 0
NamedBelow Z above s =
    (name : Bytes) (n : Node) → Z.value s (child above name) ≡ some n → n.contents ≡ name

abbrev behind : Bytes → Bytes
behind [] = []
behind (x ∷ xs) = xs

child-injective : (above x y : Bytes) → child above x ≡ child above y → x ≡ y
child-injective [] x y e = ap behind e
child-injective (a ∷ above) x y e = child-injective above x y (ap behind e)

longer : (above name path : Bytes) → length path ≤ length above → child above name ≡ path → ⊥
longer above name path short e =
    omega (arith, short, ap length e, length-append above (b'/' ∷ name))

module _ (Z : Zookeeper) (above : Bytes) (adds : AddsNamed Z above) where
  exists-NamedBelow :
      (path : Bytes) (s : Z.State) → NamedBelow Z above s → NamedBelow Z above (Z.exists s path).1
  exists-NamedBelow path s named name n v = elim (adds.exists_adds s path name n v) [
    | inl old ↦ named name n old
    | inr own ↦ own
  ]

  -- A node that is made below the path holds its own name if it is made so.
  create-NamedBelow :
      (path text : Bytes) (flag : Bool) (s : Z.State)
      → ((name : Bytes) → child above name ≡ path → text ≡ name)
      → NamedBelow Z above s
      → NamedBelow Z above (Z.create s path text flag).1
  create-NamedBelow path text flag s own named name n v =
      elim (adds.create_adds s path text name flag n v) [
        | inl old ↦ named name n old
        | inr (inl other) ↦ other
        | inr (inr (at, made)) ↦ made ∙ own name at
      ]

  ensure_here-NamedBelow :
      (path : Bytes) (s : Z.State)
      → length path ≤ length above
      → NamedBelow Z above s
      → NamedBelow Z above (ensure_here Z path s).1
  unfolding ensure_here
  ensure_here-NamedBelow path s short named = by_answer (Z.exists s path).0
    where
      seen : NamedBelow Z above (Z.exists s path).1
      seen = exists-NamedBelow path s named

      by_answer : (a : Answer) → NamedBelow Z above (ensure_found Z path a (Z.exists s path).1).1
      by_answer ok = seen
      by_answer no_node =
          create-NamedBelow path [] false (Z.exists s path).1
            (λ name e. absurd (longer above name path short e)) seen
      by_answer node_exists = seen
      by_answer other_error = seen

  ensure_loop-NamedBelow :
      (fuel : ℕ) (path : Bytes) (s : Z.State) (r : Bool × Z.State)
      → 0 < length path
      → length path ≤ fuel
      → length path ≤ length above
      → ensure_loop Z fuel path s ≡ some r
      → NamedBelow Z above s
      → NamedBelow Z above r.1
  ensure_loop-NamedBelow zero path s r h k short e named = absurd (omega arith)
  ensure_loop-NamedBelow (suc fuel) path s r h k short e named =
      elim (Option-cases (parent_of path)) [
        | inl top ↦
            subst (λ (o : Bool × Z.State). NamedBelow Z above o.1)
              (some-injective _ _ (sym (ensure_loop_top Z fuel path s top) ∙ e))
              (ensure_here-NamedBelow path s short named)
        | inr (parent, below) ↦
            let sizes = parent_of_shorter path parent below in
            let ((made, s1), f) = ensure_loop_total Z fuel parent s sizes.0 (omega arith) in
            subst (λ (o : Bool × Z.State). NamedBelow Z above o.1)
              (some-injective _ _
                (sym (ensure_loop_below Z fuel path parent s s1 made below f) ∙ e))
              (after made s1 (
                ensure_loop-NamedBelow fuel parent s (made, s1) sizes.0 (omega arith) (omega arith)
                  f named))
      ]
    where
      after :
          (made : Bool) (s1 : Z.State)
          → NamedBelow Z above s1
          → NamedBelow Z above (if made then ensure_here Z path s1 else (false, s1)).1
      after true s1 there = ensure_here-NamedBelow path s1 short there
      after false s1 there = there

  ensure_path-NamedBelow :
      (r : Registry) (path : Bytes) (s : Z.State) (o : Bool × Z.State)
      → length path ≤ length above
      → ensure_path Z r path s ≡ some o
      → NamedBelow Z above s
      → NamedBelow Z above o.1
  unfolding ensure_path
  ensure_path-NamedBelow r [] s o short e named =
      subst (λ (o : Bool × Z.State). NamedBelow Z above o.1) (some-injective _ _ e) named
  ensure_path-NamedBelow r (x ∷ path) s o short e named = elim (Bool-cases (has_handle r)) [
    | inl h ↦
        ensure_loop-NamedBelow (length (x ∷ path)) (x ∷ path) s o (omega arith) (omega arith) short
          (rw (h, ensure_path) at e) named
    | inr h ↦
        subst (λ (o : Bool × Z.State). NamedBelow Z above o.1)
          (some-injective _ _ (rw (h, ensure_path) at e)) named
  ]

  create_node-NamedBelow :
      (r : Registry) (address : Bytes) (s : Z.State)
      → NamedBelow Z above s
      → NamedBelow Z above (create_node Z r (child above address) address true s).1
  unfolding create_node
  create_node-NamedBelow r address s named = elim (Bool-cases (has_handle r)) [
    | inr h ↦ rw (h, create_node) named
    | inl h ↦
        rw (h, create_node)
          (create-NamedBelow (child above address) address true s
            (λ name e. sym (child-injective above name address e)) named)
  ]

module _ (Z : Zookeeper) (name : Bytes) (adds : AddsNamed Z (service_path name)) where
  -- registerService makes below its service only a node that holds its own name.
  pub register_service-NamedBelow :
      (r : Registry) (address : Bytes) (s : Z.State) (o : Bool × Z.State)
      → register_service Z r name address s ≡ some o
      → NamedBelow Z (service_path name) s
      → NamedBelow Z (service_path name) o.1
  unfolding register_service
  register_service-NamedBelow r address s o e named = elim (Bool-cases (registry_connected r)) [
    | inr off ↦ subst Below (some-injective _ _ (rw (off, register_service) at e)) named
    | inl on ↦ elim (Option-cases (ensure_path Z r (service_path name) s)) [
      | inl endless ↦ absurd (ground (arith, e, on, endless))
      | inr ((made, s1), run) ↦
          subst Below (some-injective _ _ (rw run at (rw (on, register_service) at e))) (
            after made s1 (
              ensure_path-NamedBelow Z (service_path name) adds r (service_path name) s (made, s1)
                (omega arith) run named))
    ]
  ]
    where
      Below : Bool × Z.State → Type 0
      Below o = NamedBelow Z (service_path name) o.1

      after :
          (made : Bool) (s1 : Z.State)
          → NamedBelow Z (service_path name) s1
          → NamedBelow Z
              (service_path name)
              (if made
                then create_node Z r (instance_path name address) address true s1
                else (false, s1)).1
      after false s1 there = there
      after true s1 there = create_node-NamedBelow Z (service_path name) adds r address s1 there
