-- ===== src/Registry/Memory.antt =====
-- A tree of nodes in memory, served to one client, that answers as ZooKeeper is taken to.
use mathlib.Core.Option.{some-injective}
use my_rpc_project_v.Base.{
  ◌≡◌, ◌∙◌, ◌⊎◌, inl, inr, refl, sym, ap, arith, List, [], ◌∷◌, Option, none, some, Bool, true,
  false, Bytes, bytes_eq, bytes_eq-eq, bytes_eq_refl, take, Bool-cases, if◌then◌else◌, subst, ◌==◌,
  ==_refl,
}
use my_rpc_project_v.Zookeeper.{
  Zookeeper, IsLawful, IsKept, IsUp, AddsNamed, Present, Listed, Node, child, has_slash, Answer, ok,
  no_node, node_exists,
}
use my_rpc_project_v.Registry.{parent_of}

abbrev Nodes : Type 0
Nodes = List (Bytes × Node)

abbrev lookup : Nodes → Bytes → Option Node
lookup [] path = none
lookup ((key, n) ∷ nodes) path = if bytes_eq key path then some n else lookup nodes path

abbrev holds : Nodes → Bytes → Bool
holds nodes path = elim (lookup nodes path) [ none ↦ false | some n ↦ true ]

-- The name of `path` below `above`.
abbrev below : Bytes → Bytes → Option Bytes
below [] [] = none
below [] (x ∷ name) = if x == b'/' then some name else none
below (a ∷ above) [] = none
below (a ∷ above) (x ∷ path) = if a == x then below above path else none

abbrev names_below : Bytes → Nodes → List Bytes
names_below path [] = []
names_below path ((key, n) ∷ nodes) = elim (below path key) [
  | none ↦ names_below path nodes
  | some name ↦ if has_slash name then names_below path nodes else name ∷ names_below path nodes
]

abbrev has_parent : Nodes → Bytes → Bool
has_parent nodes path = elim (parent_of path) [ none ↦ true | some parent ↦ holds nodes parent ]

abbrev create : Nodes → Bytes → Bytes → Bool → Answer × Nodes
create nodes path text flag =
    if holds nodes path
    then (node_exists, nodes)
    else if has_parent nodes path
    then (ok, (path, record { contents = text; ephemeral = flag }) ∷ nodes)
    else (no_node, nodes)

abbrev pub memory : Zookeeper
memory = record {
  State = Nodes;
  value = lookup;
  exists = λ nodes path. (if holds nodes path then ok else no_node, nodes);
  create = create;
  get_children =
      λ nodes path. (if holds nodes path then some (names_below path nodes) else none, nodes);
  get = λ nodes path.
      (elim (lookup nodes path) [ none ↦ none | some n ↦ some (take 1024 n.contents) ], nodes);
}

below-child : (path name : Bytes) → below path (child path name) ≡ some name
below-child [] name = refl
below-child (a ∷ path) name = rw (==_refl a) (below-child path name)

holds-Present : (nodes : Nodes) (path : Bytes) → holds nodes path ≡ true → Present memory nodes path
holds-Present nodes path h = by_value (lookup nodes path) refl h
  where
    by_value :
        (o : Option Node)
        → lookup nodes path ≡ o
        → (elim o [ none ↦ false | some n ↦ true ]) ≡ true
        → (n : Node) × (lookup nodes path ≡ some n)
    by_value none e k = ground arith
    by_value (some n) e k = (n, e)

Present-holds : (nodes : Nodes) (path : Bytes) → Present memory nodes path → holds nodes path ≡ true
Present-holds nodes path (n, e) = rw (e, holds) refl

lookup-Listed :
    (nodes : Nodes) (path name : Bytes) (n : Node)
    → has_slash name ≡ false
    → lookup nodes (child path name) ≡ some n
    → Listed name (names_below path nodes)
lookup-Listed [] path name n flat h = ground arith
lookup-Listed ((key, m) ∷ nodes) path name n flat h =
    elim (Bool-cases (bytes_eq key (child path name))) [
      | inl e ↦
          subst (λ (k : Bytes). Listed name (names_below path ((k, m) ∷ nodes)))
            (sym (bytes_eq-eq key (child path name) e)) first
      | inr e ↦ later (below path key) (
          lookup-Listed nodes path name n flat (
            subst (λ (b : Bool). (if b then some m else lookup nodes (child path name)) ≡ some n) e
              h))
    ]
  where
    first : Listed name (names_below path ((child path name, m) ∷ nodes))
    first = rw (below-child path name, names_below) (rw flat (inl refl))

    later :
        (o : Option Bytes)
        → Listed name (names_below path nodes)
        → Listed name (elim o [
          | none ↦ names_below path nodes
          | some found ↦
              if has_slash found then names_below path nodes else found ∷ names_below path nodes
        ])
    later none l = l
    later (some found) l = elim (Bool-cases (has_slash found)) [
      | inl e ↦ rw e l
      | inr e ↦ rw e (inr l)
    ]

lookup_front : (nodes : Nodes) (path : Bytes) (n : Node) → lookup ((path, n) ∷ nodes) path ≡ some n
lookup_front nodes path n = rw (bytes_eq_refl path, lookup) refl

module _ (s : Nodes) (path text : Bytes) (flag : Bool) where
  abbrev made : Node
  made = record { contents = text; ephemeral = flag }

  create-cases :
      ((holds s path ≡ true) × (create s path text flag ≡ (node_exists, s)))
      ⊎ (((holds s path ≡ false) × (create s path text flag ≡ (ok, (path, made) ∷ s)))
          ⊎ (create s path text flag ≡ (no_node, s)))
  create-cases = elim (Bool-cases (holds s path)) [
    | inl h ↦ inl (h, rw (h, create) refl)
    | inr h ↦ elim (Bool-cases (has_parent s path)) [
      | inl p ↦ inr (inl (h, rw (h, create) (rw p refl)))
      | inr p ↦ inr (inr (rw (h, create) (rw p refl)))
    ]
  ]

  create-stores :
      (create s path text flag).0 ≡ ok → lookup (create s path text flag).1 path ≡ some made
  create-stores e = elim create-cases [
    | inl (h, c) ↦ ground (arith, ap (λ (o : Answer × Nodes). o.0) c)
    | inr (inl (h, c)) ↦ rw c (lookup_front s path made)
    | inr (inr c) ↦ ground (arith, ap (λ (o : Answer × Nodes). o.0) c)
  ]

  create-finds :
      (create s path text flag).0 ≡ node_exists → Present memory (create s path text flag).1 path
  create-finds e = elim create-cases [
    | inl (h, c) ↦ rw c (holds-Present s path h)
    | inr (inl (h, c)) ↦ ground (arith, ap (λ (o : Answer × Nodes). o.0) c)
    | inr (inr c) ↦ ground (arith, ap (λ (o : Answer × Nodes). o.0) c)
  ]

  create-keeps :
      (other : Bytes) (n : Node)
      → lookup s other ≡ some n
      → lookup (create s path text flag).1 other ≡ some n
  create-keeps other n v = elim create-cases [
    | inl (h, c) ↦ rw c v
    | inr (inr c) ↦ rw c v
    | inr (inl (h, c)) ↦ elim (Bool-cases (bytes_eq path other)) [
      | inr e ↦ rw c (rw (e, lookup) v)
      | inl e ↦
          ground (arith, h, Present-holds s path (n, ap (lookup s) (bytes_eq-eq path other e) ∙ v))
    ]
  ]

abbrev text_of : Option Node → Option Bytes
text_of o = elim o [ none ↦ none | some n ↦ some (take 1024 n.contents) ]

get-text :
    (o : Option Node) (text : Bytes)
    → text_of o ≡ some text
    → (n : Node) × (o ≡ some n) × (text ≡ take 1024 n.contents)
get-text none text e = ground arith
get-text (some n) text e = (n, refl, sym (some-injective _ _ e))

children-Listed :
    (s : Nodes) (path name : Bytes) (names : List Bytes) (n : Node)
    → (memory.get_children s path).0 ≡ some names
    → has_slash name ≡ false
    → lookup s (child path name) ≡ some n
    → Listed name names
children-Listed s path name names n e flat v = elim (Bool-cases (holds s path)) [
  | inl h ↦
      subst (Listed name)
        (some-injective _ _
          (subst (λ (b : Bool). (if b then some (names_below path s) else none) ≡ some names) h e))
        (lookup-Listed s path name n flat v)
  | inr h ↦ ground arith
]

pub memory-IsLawful : IsLawful memory
memory-IsLawful = record {
  exists_ok = λ s path e. elim (Bool-cases (holds s path)) [
    | inl h ↦ holds-Present s path h
    | inr h ↦ ground arith
  ];
  create_ok = create-stores;
  create_exists = create-finds;
  get_some = λ s path text e. get-text (lookup s path) text e;
  children_all =
      λ s path name names e flat there. children-Listed s path name names there.0 e flat there.1;
}

pub memory-IsKept : IsKept memory
memory-IsKept = record {
  exists_kept = λ s path other n v. v;
  create_kept = λ s path text other flag n v. create-keeps s path text flag other n v;
  children_kept = λ s path other n v. v;
  get_kept = λ s path other n v. v;
}

pub memory-IsUp : IsUp memory
memory-IsUp = record {
  children_up = λ s path there. (names_below path s, rw (Present-holds s path there) refl);
  get_up = λ s path there. (take 1024 there.0.contents, ap text_of there.1);
}

create-adds :
    (above path text name : Bytes) (s : Nodes) (flag : Bool) (n : Node)
    → lookup (create s path text flag).1 (child above name) ≡ some n
    → (lookup s (child above name) ≡ some n)
      ⊎ ((n.contents ≡ name) ⊎ ((child above name ≡ path) × (n.contents ≡ text)))
create-adds above path text name s flag n v = elim (create-cases s path text flag) [
  | inl (h, c) ↦ inl (rw c at v)
  | inr (inr c) ↦ inl (rw c at v)
  | inr (inl (h, c)) ↦ elim (Bool-cases (bytes_eq path (child above name))) [
    | inr other ↦ inl (rw other at (rw c at v))
    | inl same ↦ inr (
        inr (
          sym (bytes_eq-eq path (child above name) same),
          ap (λ (m : Node). m.contents) (sym (some-injective _ _ (rw same at (rw c at v)))),
        ))
  ]
]

pub memory-AddsNamed : (above : Bytes) → AddsNamed memory above
memory-AddsNamed above = record {
  exists_adds = λ s path name n v. inl v;
  create_adds = λ s path text name flag n v. create-adds above path text name s flag n v;
}
