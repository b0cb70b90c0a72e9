-- ===== src/Startup/Listening.antt =====
-- rpc_src/network/create_socket: CreateSocket. The answers of the socket calls are arguments, and an
-- operation gives the descriptors that it closes.
use my_rpc_project_v.Base.{
  ℕ, ◌≡◌, inl, inr, refl, ap, ◌∙◌, arith, List, [], ◌∷◌, ◌++◌, Option, none, some, Bool, true,
  false, not, ◌&&◌, ◌||◌, Bytes, codes, bytes_eq, if◌then◌else◌, ℤ, pos, negsuc, is_nonneg, is_pos,
  to_int, Bool-cases,
}
use my_rpc_project_v.Startup.{ServerConfig}

pub record CreateSocket : Type 0 where
  pub fd : ℤ
  pub servers_ip : Bytes
  pub servers_port : ℕ
  pub servers_max_connections : ℤ
  pub socket_timeout_ms : ℤ

-- socket's descriptor, and which of the other calls succeed.
pub record Calls : Type 0 where
  pub socket : ℤ
  pub reuse : Bool
  pub nodelay : Bool
  pub get_flags : Bool
  pub set_flags : Bool
  pub inet_pton : Bytes → Bool
  pub bind : Bool
  pub listen : Bool

unfoldable pub new_socket : ServerConfig → CreateSocket
unfolding to_int
new_socket config = record {
  fd = negsuc 0;
  servers_ip = config.servers_ip;
  servers_port = config.servers_port;
  servers_max_connections = to_int (pos config.max_connections);
  socket_timeout_ms = to_int (pos config.timeout);
}

unfoldable pub set_socket_opt : Calls → Bool
set_socket_opt c =
    if not c.reuse
    then false
    else if not c.nodelay
    then false
    else if not c.get_flags || not c.set_flags
    then false
    else true

-- close(fd_) and the reset in front of each later `return false`.
abbrev give_back : ℤ → CreateSocket → CreateSocket × Bool × List ℤ
give_back fd s = (record s { fd = negsuc 0 }, false, fd ∷ [])

abbrev any_address : Bytes → Bool
any_address ip = bytes_eq ip [] || bytes_eq ip (codes "0.0.0.0")

unfoldable pub init : Calls → CreateSocket → CreateSocket × Bool × List ℤ
unfolding set_socket_opt
init c s =
    let opened = record s { fd = c.socket } in
    if not (is_nonneg c.socket)
    then (opened, false, [])
    else if not (set_socket_opt c)
    then give_back c.socket opened
    else if not (any_address s.servers_ip) && not (c.inet_pton s.servers_ip)
    then give_back c.socket opened
    else if not c.bind
    then give_back c.socket opened
    else if not c.listen
    then give_back c.socket opened
    else (opened, true, [])

-- The destructor, with the descriptor that it closes.
unfoldable pub destroy : CreateSocket → List ℤ
destroy s = if is_pos s.fd then s.fd ∷ [] else []

-- A socket that cannot be set up is destroyed again.
unfoldable pub settle : CreateSocket × Bool × List ℤ → Option CreateSocket × List ℤ
unfolding destroy
settle (s, true, closed) = (some s, closed)
settle (s, false, closed) = (none, closed ++ destroy s)

unfoldable pub create_socket : Calls → ServerConfig → Option CreateSocket × List ℤ
unfolding new_socket init settle
create_socket c config = settle (init c (new_socket config))

-- Accept: accept's descriptor, and whether the two calls of fcntl succeed.
unfoldable pub accept : ℤ → Bool → Bool → ℤ × List ℤ
accept client_fd get_flags set_flags =
    if not (is_nonneg client_fd)
    then (negsuc 0, [])
    else if not get_flags || not set_flags
    then (negsuc 0, client_fd ∷ [])
    else (client_fd, [])

-- What all calls after socket decide.
abbrev pub all_succeed : Calls → Bytes → Bool
all_succeed c ip =
    c.reuse
    && c.nodelay
    && c.get_flags
    && c.set_flags
    && (any_address ip || c.inet_pton ip)
    && c.bind
    && c.listen

init-all_succeed :
    (c : Calls) (s : CreateSocket)
    → is_nonneg c.socket ≡ true
    → init c s ≡ (
        let opened = record s { fd = c.socket } in
        if all_succeed c s.servers_ip then (opened, true, []) else give_back c.socket opened)
unfolding init
init-all_succeed c s e = simp e (
    by_tests c.reuse c.nodelay c.get_flags c.set_flags (any_address s.servers_ip)
      (c.inet_pton s.servers_ip) c.bind c.listen)
  where
    opened : CreateSocket
    opened = record s { fd = c.socket }

    by_tests :
        (reuse nodelay get_flags set_flags any ip bind listen : Bool)
        → (if not (
              if not reuse
              then false
              else if not nodelay
              then false
              else if not get_flags || not set_flags
              then false
              else true)
            then give_back c.socket opened
            else if not any && not ip
            then give_back c.socket opened
            else if not bind
            then give_back c.socket opened
            else if not listen
            then give_back c.socket opened
            else (opened, true, []))
          ≡ (if reuse && nodelay && get_flags && set_flags && (any || ip) && bind && listen
              then (opened, true, [])
              else give_back c.socket opened)
    by_tests reuse nodelay get_flags set_flags any ip bind listen = ground arith

-- Create gives a socket exactly when each call that it makes succeeds: then the socket holds the
-- descriptor, and nothing is closed. Otherwise the descriptor, where there is one, is closed once.
pub create_socket-closes :
    (c : Calls) (config : ServerConfig)
    → create_socket c config ≡ (
        if is_nonneg c.socket
        then if all_succeed c config.servers_ip
          then (some (record (new_socket config) { fd = c.socket }), [])
          else (none, c.socket ∷ [])
        else (none, []))
unfolding create_socket new_socket settle destroy init is_pos is_nonneg
create_socket-closes c config = elim (Bool-cases (is_nonneg c.socket)) [
  | inl e ↦
      ap settle (init-all_succeed c (new_socket config) e)
      ∙ simp e (by_success (all_succeed c config.servers_ip))
  | inr e ↦ ap settle (init_negative c (new_socket config) e) ∙ simp (e, negative c.socket e) refl
]
  where
    opened : CreateSocket
    opened = record (new_socket config) { fd = c.socket }

    by_success :
        (b : Bool)
        → settle (if b then (opened, true, []) else give_back c.socket opened)
          ≡ (if b then (some opened, []) else (none, c.socket ∷ []))
    by_success true = refl
    by_success false = refl

    negative : (fd : ℤ) → is_nonneg fd ≡ false → is_pos fd ≡ false
    negative (pos n) e = ground arith
    negative (negsuc n) e = refl

    init_negative :
        (c : Calls) (s : CreateSocket)
        → is_nonneg c.socket ≡ false
        → init c s ≡ (record s { fd = c.socket }, false, [])
    init_negative c s e = simp e refl
