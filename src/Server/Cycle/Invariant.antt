-- ===== src/Server/Cycle/Invariant.antt =====
-- The server's tables fit together, after every event of the loop.
use my_rpc_project_v.Base.{
  ℕ, zero, suc, ◌<◌, ◌≡◌, refl, sym, ap, arith, List, [], ◌∷◌, Bool, true, false, some, length,
  Bool-cases, ◌⊎◌, inl, inr, set, ℤ, int_eq, int_eq-eq, All, All-append,
}
use my_rpc_project_v.Protocol.Request.{RpcRequest}
use my_rpc_project_v.Connection.{Connection}
use my_rpc_project_v.Server.Cycle.{Server, remove, remove_fd, contains}
use my_rpc_project_v.Server.Cycle.Stream.{handed}
use my_rpc_project_v.Server.Manager.{
  get_connection, add_connection, remove_connection, Distinct, table_updates,
}

-- The table has no doubles; each of its descriptors is watched by epoll and names an object; and so
-- does each task.
pub record IsServer (s : Server) : Type 0 where
  pub distinct : Distinct s.connections
  pub known :
      (fd : ℤ) (conn : ℕ) → get_connection fd s.connections ≡ some conn → conn < length s.objects
  pub watching :
      (fd : ℤ) (conn : ℕ)
      → get_connection fd s.connections ≡ some conn
      → contains fd s.watched ≡ true
  pub queued : All (λ (t : ℕ × RpcRequest). t.0 < length s.objects) s.tasks

pub contains-remove_fd :
    (fd other : ℤ) (xs : List ℤ)
    → int_eq fd other ≡ false
    → contains other xs ≡ true
    → contains other (remove_fd fd xs) ≡ true
unfolding contains remove_fd
contains-remove_fd fd other [] apart h = h
contains-remove_fd fd other (x ∷ xs) apart h = elim (Bool-cases (int_eq x fd)) [
  | inl hit ↦ ground (arith, hit, h, apart, ap (λ k. int_eq k other) (int_eq-eq x fd hit))
  | inr miss ↦ ground (arith, miss, h, contains-remove_fd fd other xs apart)
]

pub length-set {ℓ} : {A : Type ℓ} (xs : List A) (i : ℕ) (a : A) → length (set xs i a) ≡ length xs
length-set [] i a = refl
length-set (x ∷ xs) zero a = refl
length-set (x ∷ xs) (suc i) a = ap suc (length-set xs i a)

-- What a removal leaves in the table stood there before, under another descriptor.
pub remove-found :
    (fd other : ℤ) (conn : ℕ) (table : List (ℤ × ℕ))
    → Distinct table
    → get_connection other (remove_connection fd table) ≡ some conn
    → (int_eq fd other ≡ false) × (get_connection other table ≡ some conn)
remove-found fd other conn table d h = elim (Bool-cases (int_eq fd other)) [
  | inl same ↦ absurd (ground (arith, same, h, (table_updates fd other conn table d).1))
  | inr apart ↦ (apart, ground (arith, apart, h, (table_updates fd other conn table d).1))
]

-- What an addition leaves in the table is the new entry or stood there before.
pub add-found :
    (fd other : ℤ) (new conn : ℕ) (table : List (ℤ × ℕ))
    → Distinct table
    → get_connection other (add_connection fd new table) ≡ some conn
    → ((int_eq fd other ≡ true) × (new ≡ conn)) ⊎ (get_connection other table ≡ some conn)
add-found fd other new conn table d h = elim (Bool-cases (int_eq fd other)) [
  | inl same ↦ inl (same, ground (arith, same, h, (table_updates fd other new table d).0))
  | inr apart ↦ inr (ground (arith, apart, h, (table_updates fd other new table d).0))
]

pub remove-IsServer : (s : Server) (fd : ℤ) → IsServer s → IsServer (remove s fd)
unfolding remove
remove-IsServer s fd v = record {
  distinct = (table_updates fd fd 0 s.connections v.distinct).3;
  known =
      λ other conn h. v.known other conn (remove-found fd other conn s.connections v.distinct h).1;
  watching = λ other conn h.
      let found = remove-found fd other conn s.connections v.distinct h in
      contains-remove_fd fd other s.watched found.0 (v.watching other conn found.1);
  queued = v.queued;
}

pub updated-IsServer :
    (s : Server) (conn : ℕ) (c : Connection)
    → IsServer s
    → IsServer (record s { objects = set s.objects conn c })
updated-IsServer s conn c v = record {
  distinct = v.distinct;
  known = λ fd i h. omega (arith, v.known fd i h, length-set s.objects conn c);
  watching = v.watching;
  queued =
      same_length (length s.objects) (length (set s.objects conn c)) s.tasks
        (sym (length-set s.objects conn c)) v.queued;
}
  where
    same_length :
        (m n : ℕ) (ts : List (ℕ × RpcRequest))
        → m ≡ n
        → All (λ (t : ℕ × RpcRequest). t.0 < m) ts
        → All (λ (t : ℕ × RpcRequest). t.0 < n) ts
    same_length m n [] e h = tt
    same_length m n (t ∷ ts) e h = (omega (arith, h.0), same_length m n ts e h.1)

pub hand_over-IsServer :
    (s : Server) (conn : ℕ) (request : RpcRequest) (taken : Bool)
    → conn < length s.objects
    → IsServer s
    → IsServer (handed s conn request taken)
hand_over-IsServer s conn request true h v = record {
  distinct = v.distinct;
  known = v.known;
  watching = v.watching;
  queued = All-append _ s.tasks ((conn, request) ∷ []) v.queued (h, tt);
}
hand_over-IsServer s conn request false h v = record {
  distinct = v.distinct;
  known = v.known;
  watching = v.watching;
  queued = v.queued;
}

-- Each call of enqueue to come returns.
abbrev pub Admits : Server → Type 0
Admits s = (n : ℕ) → (taken : Bool) × (s.enqueues n ≡ some taken)
