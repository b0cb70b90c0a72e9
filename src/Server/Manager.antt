-- ===== src/Server/Manager.antt =====
-- rpc_src/network/connection_manager.cpp: the table from descriptors to connections.
use my_rpc_project_v.Base.{
  ℕ, ◌≡◌, ap, refl, arith, List, [], ◌∷◌, Option, none, some, false, ℤ, int_eq, int_eq-eq,
  int_eq_refl, if◌then◌else◌, length, Bool-cases, inl, inr,
}

module _ {ℓ} {A : Type ℓ} where
  unfoldable pub get_connection : ℤ → List (ℤ × A) → Option A
  get_connection fd [] = none
  get_connection fd ((key, conn) ∷ table) =
      if int_eq key fd then some conn else get_connection fd table

  -- connections_[fd] = conn
  unfoldable pub add_connection : ℤ → A → List (ℤ × A) → List (ℤ × A)
  add_connection fd conn [] = (fd, conn) ∷ []
  add_connection fd conn ((key, old) ∷ table) =
      if int_eq key fd then (key, conn) ∷ table else (key, old) ∷ add_connection fd conn table

  unfoldable pub remove_connection : ℤ → List (ℤ × A) → List (ℤ × A)
  remove_connection fd [] = []
  remove_connection fd ((key, conn) ∷ table) =
      if int_eq key fd then table else (key, conn) ∷ remove_connection fd table

  unfoldable pub get_connection_count : List (ℤ × A) → ℕ
  get_connection_count table = length table

  -- No descriptor stands twice.
  abbrev pub Distinct : List (ℤ × A) → Type ℓ
  Distinct [] = Unit {ℓ}
  Distinct ((key, conn) ∷ table) = (get_connection key table ≡ none) × Distinct table

module _ {ℓ} {A : Type ℓ} where
  -- What is found after an insertion, and after a removal from a table without doubles.
  pub get-add :
      (fd other : ℤ) (conn : A) (table : List (ℤ × A))
      → get_connection other (add_connection fd conn table)
        ≡ (if int_eq fd other then some conn else get_connection other table)
  unfolding get_connection add_connection
  get-add fd other conn [] = refl
  get-add fd other conn ((key, old) ∷ table) = elim (Bool-cases (int_eq key fd)) [
    | inl hit ↦
        let e : key ≡ fd = int_eq-eq key fd hit in ground (arith, hit, ap (λ k. int_eq k other) e)
    | inr miss ↦ elim (Bool-cases (int_eq key other)) [
      | inl found ↦
          let e : key ≡ other = int_eq-eq key other found in
          ground (arith, miss, found, other_key fd key other e miss)
      | inr hidden ↦ rw (miss, hidden) (get-add fd other conn table)
    ]
  ]
    where
      other_key : (a k o : ℤ) → k ≡ o → int_eq k a ≡ false → int_eq a o ≡ false
      other_key a k o e h = elim (Bool-cases (int_eq a o)) [
        | inr no_match ↦ no_match
        | inl match ↦
            let e' : a ≡ o = int_eq-eq a o match in
            absurd (
              ground
                (arith, h, e, e', int_eq_refl o, ap (λ x. int_eq k x) e', ap (λ x. int_eq x o) e))
      ]

  get-remove_other :
      (fd other : ℤ) (table : List (ℤ × A))
      → int_eq fd other ≡ false
      → get_connection other (remove_connection fd table) ≡ get_connection other table
  unfolding get_connection remove_connection
  get-remove_other fd other [] h = refl
  get-remove_other fd other ((key, conn) ∷ table) h = elim (Bool-cases (int_eq key fd)) [
    | inl hit ↦
        let e : key ≡ fd = int_eq-eq key fd hit in
        ground (arith, hit, h, ap (λ k. int_eq k other) e)
    | inr miss ↦ ground (arith, miss, get-remove_other fd other table h)
  ]

  get-remove_self :
      (fd : ℤ) (table : List (ℤ × A))
      → Distinct table
      → get_connection fd (remove_connection fd table) ≡ none
  unfolding get_connection remove_connection
  get-remove_self fd [] d = refl
  get-remove_self fd ((key, conn) ∷ table) d = elim (Bool-cases (int_eq key fd)) [
    | inl hit ↦
        let e : key ≡ fd = int_eq-eq key fd hit in
        ground (arith, hit, d.0, ap (λ k. get_connection k table) e)
    | inr miss ↦
        rw (miss, remove_connection, get_connection) (rw miss (get-remove_self fd table d.1))
  ]

  remove-none :
      (fd other : ℤ) (table : List (ℤ × A))
      → get_connection other table ≡ none
      → get_connection other (remove_connection fd table) ≡ none
  unfolding get_connection remove_connection
  remove-none fd other [] h = refl
  remove-none fd other ((key, conn) ∷ table) h = ground (arith, remove-none fd other table)

  remove-Distinct :
      (fd : ℤ) (table : List (ℤ × A)) → Distinct table → Distinct (remove_connection fd table)
  unfolding remove_connection
  remove-Distinct fd [] d = tt
  remove-Distinct fd ((key, conn) ∷ table) d = elim (Bool-cases (int_eq key fd)) [
    | inl hit ↦ rw hit d.1
    | inr miss ↦ rw miss (remove-none fd key table d.0, remove-Distinct fd table d.1)
  ]

  add-Distinct :
      (fd : ℤ) (conn : A) (table : List (ℤ × A))
      → Distinct table
      → Distinct (add_connection fd conn table)
  unfolding add_connection
  add-Distinct fd conn [] d = (unfold get_connection in refl, tt)
  add-Distinct fd conn ((key, old) ∷ table) d = elim (Bool-cases (int_eq key fd)) [
    | inl hit ↦ rw hit d
    | inr miss ↦ rw miss (absent miss, add-Distinct fd conn table d.1)
  ]
    where
      absent : int_eq key fd ≡ false → get_connection key (add_connection fd conn table) ≡ none
      absent miss = elim (Bool-cases (int_eq fd key)) [
        | inr apart ↦ rw (get-add fd key conn table, apart) d.0
        | inl match ↦
            let e : fd ≡ key = int_eq-eq fd key match in
            absurd (ground (arith, miss, int_eq_refl key, ap (λ x. int_eq key x) e))
      ]

  -- A table of connections without doubles is a finite map: an insertion sets the descriptor's
  -- connection, a removal takes it away, neither touches the other descriptors, and both keep the
  -- table free of doubles.
  pub table_updates :
      (fd other : ℤ) (conn : A) (table : List (ℤ × A))
      → Distinct table
      → (get_connection other (add_connection fd conn table)
          ≡ (if int_eq fd other then some conn else get_connection other table))
        × (get_connection other (remove_connection fd table)
            ≡ (if int_eq fd other then none else get_connection other table))
        × Distinct (add_connection fd conn table)
        × Distinct (remove_connection fd table)
  table_updates fd other conn table d = (
    get-add fd other conn table,
    removed,
    add-Distinct fd conn table d,
    remove-Distinct fd table d,
  )
    where
      removed :
          get_connection other (remove_connection fd table)
          ≡ (if int_eq fd other then none else get_connection other table)
      removed = elim (Bool-cases (int_eq fd other)) [
        | inr apart ↦ rw apart (get-remove_other fd other table apart)
        | inl match ↦
            let e : fd ≡ other = int_eq-eq fd other match in
            rw match (rw (← e) (get-remove_self fd table d))
      ]
