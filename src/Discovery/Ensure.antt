-- ===== src/Discovery/Ensure.antt =====
-- What ensureZkConnection and cleanup leave of the connection.
use my_rpc_project_v.Base.{
  ℕ, zero, suc, ◌+◌, ◌≡◌, ◌⊎◌, inl, inr, refl, arith, List, [], ◌∷◌, Option, none, some, Bool, true,
  false, Bytes, Option-cases, ◌≤◌, ge→ltb, not, if◌then◌else◌,
}
use my_rpc_project_v.Zookeeper.{
  Zookeeper, ClientState, connected, connecting, expired, auth_failed, associating, unknown,
}
use my_rpc_project_v.Balancer.{Balancer}
use my_rpc_project_v.Config.{Json}
use my_rpc_project_v.Discovery.{
  Handler, Answers, cleanup, wait_state, ensure_zk_connection, conn_string, get_server,
  update_servers_from_zk, get_all_servers, has_client, read_settings, init_zk_conn_handler,
}

-- Whether these states, one after the other, end in a connection.
abbrev pub settles : List ClientState → Bool
settles [] = false
settles (connected ∷ states) = true
settles (expired ∷ states) = false
settles (auth_failed ∷ states) = false
settles (connecting ∷ states) = settles states
settles (associating ∷ states) = settles states
settles (unknown ∷ states) = settles states

abbrev first_states : ℕ → ℕ → (ℕ → ClientState) → List ClientState
first_states zero count state = []
first_states (suc left) count state = state (count + 1) ∷ first_states left (count + 1) state

abbrev give_up : Handler → Handler × Bool × List ℕ
give_up h = ((cleanup h).0, false, (cleanup h).1)

wait_state-settles :
    (left count : ℕ) (state : ℕ → ClientState) (h : Handler)
    → left + count ≤ 10
    → wait_state left count state h
      ≡ (if settles (first_states left count state) then (h, true, []) else give_up h)
unfolding wait_state
wait_state-settles zero count state h few = refl
wait_state-settles (suc left) count state h few =
    by_state (state (count + 1)) refl (wait_state-settles left (count + 1) state h (omega arith))
  where
    after : List ClientState → Handler × Bool × List ℕ
    after states = if settles states then (h, true, []) else give_up h

    rest : List ClientState
    rest = first_states left (count + 1) state

    by_state :
        (c : ClientState)
        → state (count + 1) ≡ c
        → wait_state left (count + 1) state h ≡ after rest
        → wait_state (suc left) count state h ≡ after (c ∷ rest)
    by_state connected e ih = rw (e, wait_state) refl
    by_state expired e ih = rw (e, wait_state) refl
    by_state auth_failed e ih = rw (e, wait_state) refl
    by_state connecting e ih = rw (e, wait_state) ih
    by_state associating e ih = rw (e, wait_state) (rw (ge→ltb 10 (count + 1) (omega arith)) ih)
    by_state unknown e ih = rw (e, wait_state) (rw (ge→ltb 10 (count + 1) (omega arith)) ih)

abbrev client_of : Answers → Handler → Option ℕ
client_of a h = elim h.zk_client [ none ↦ a.init (conn_string h) | some client ↦ some client ]

abbrev pub Settled : Answers → Handler → Type 0
Settled a h =
    ((client_of a h ≡ none) × (ensure_zk_connection a h ≡ (h, false, [])))
    ⊎ ((client : ℕ) × (client_of a h ≡ some client)
        × (ensure_zk_connection a h ≡ (
            let held = record h { zk_client = some client } in
            if settles (a.state 1 ∷ a.state 2 ∷ a.state 3 ∷ [])
            then (held, true, [])
            else give_up held)))

ensure-Settled : (a : Answers) (c : Option ℕ) (h : Handler) → Settled a (record h { zk_client = c })
unfolding ensure_zk_connection
ensure-Settled a (some client) h = inr (
  client,
  refl,
  wait_state-settles 3 0 a.state (record h { zk_client = some client }) (omega arith),
)
ensure-Settled a none h = elim (Option-cases (a.init (conn_string h))) [
  | inl e ↦ inl (e, rw (e, ensure_zk_connection) refl)
  | inr (client, e) ↦ inr (
    client,
    e,
    rw (e, ensure_zk_connection)
        (wait_state-settles 3 0 a.state (record h { zk_client = some client }) (omega arith)),
  )
]

-- ensureZkConnection: without a handle, and with none to be had, nothing happens. Otherwise the
-- first three states decide: the first of them that is connected, expired or failed. Then the handle
-- is kept and nothing is closed; or cleanup is called, and takes the handle away if no other call of
-- it came before.
pub ensure_zk_connection-settles : (a : Answers) (h : Handler) → Settled a h
ensure_zk_connection-settles a h = ensure-Settled a h.zk_client h

module _ (Z : Zookeeper) where
  -- Once cleanup has been called, a handle whose session has expired is never replaced: getServer
  -- finds no server, asks ZooKeeper nothing, closes nothing, and leaves the handler as it was but for
  -- the list of servers, so the same holds of the next call.
  pub get_server_dead :
      (a : Answers) (instance_ : Option Balancer) (drawn : ℕ) (zk_namespace : Bytes) (h : Handler)
      (client : ℕ) (s : Z.State)
      → a.state 1 ≡ expired
      → get_server Z a instance_ drawn zk_namespace
          (record h { zk_client = some client; cleanup_done = true })
          s
        ≡ (
          [],
          instance_,
          record h { zk_client = some client; cleanup_done = true; servers = [] },
          [],
          s,
        )
  unfolding get_server cleanup ensure_zk_connection get_all_servers update_servers_from_zk
  get_server_dead a instance_ drawn zk_namespace h client s e =
      rw (e, ensure_zk_connection, wait_state) refl

-- A handle that is there.
has_client-some : (h : Handler) → has_client h ≡ true → (client : ℕ) × (h.zk_client ≡ some client)
has_client-some h e = by_client h.zk_client refl
  where
    by_client : (c : Option ℕ) → h.zk_client ≡ c → (client : ℕ) × (h.zk_client ≡ some client)
    by_client none f = absurd (ground (arith, e, f))
    by_client (some client) f = (client, f)

module _ (j : Json) where
  pub init_zk_conn_handler-online :
      (config : j.Value) (a : Answers) (h : Handler)
      → (init_zk_conn_handler j config a h).1 ≡ true
      → (client : ℕ) × ((init_zk_conn_handler j config a h).0.zk_client ≡ some client)
  unfolding init_zk_conn_handler
  init_zk_conn_handler-online config a h e =
      by_tests (j.empty config) (read_settings j config h).1
        (has_client (ensure_zk_connection a (read_settings j config h).0).0) refl e
    where
      read : Handler × Bool
      read = read_settings j config h

      ensured : Handler × Bool × List ℕ
      ensured = ensure_zk_connection a read.0

      by_tests :
          (empty good there : Bool)
          → has_client ensured.0 ≡ there
          → let o : Handler × Bool × List ℕ =
              if empty
              then (h, false, [])
              else if not good
              then give_up read.0
              else if not there
              then (ensured.0, false, ensured.2)
              else (ensured.0, ensured.1, ensured.2) in
            o.1 ≡ true → (client : ℕ) × (o.0.zk_client ≡ some client)
      by_tests true good there f e = absurd (ground arith)
      by_tests false false there f e = absurd (ground arith)
      by_tests false true false f e = absurd (ground arith)
      by_tests false true true f e = has_client-some ensured.0 f
