-- ===== src/Discovery/Addresses.antt =====
-- A registered address as RpcClient::Connect takes it apart.
use my_rpc_project_v.Base.{
  ℕ, zero, suc, ◌+◌, ◌-◌, ◌*◌, ◌/◌, ◌%◌, ◌^◌, ◌<◌, ◌≡◌, ◌∙◌, inl, inr, refl, ap, sym, arith, List,
  [], ◌∷◌, ◌++◌, Option, none, some, Bool, true, false, Bytes, Bool-cases, ◌==◌, ◌||◌, ltb, lt→ltb,
  ltb→lt, digits, to_text, ℤ, pos,
}
use my_rpc_project_v.Config.{RegistryInfo}
use my_rpc_project_v.Connection.{open_fd}
use my_rpc_project_v.Client.{
  Client, Attempt, opened, returned, split_address, skip_spaces, read_digits, is_space, is_digit,
  or_zero, signed, stoi, connect, connect_loop, init_socket,
}
use my_rpc_project_v.Discovery.Registration.{service_address}

abbrev pub has_colon : Bytes → Bool
has_colon [] = false
has_colon (x ∷ xs) = x == b':' || has_colon xs

split_address-colon :
    (ip port : Bytes) → has_colon ip ≡ false → split_address (ip ++ (b':' ∷ port)) ≡ some (ip, port)
unfolding split_address
split_address-colon [] port h = refl
split_address-colon (x ∷ ip) port h = elim (Bool-cases (x == b':')) [
  | inl e ↦ ground arith
  | inr e ↦ rw (e, split_address) (rw (split_address-colon ip port (rest x ip h)) refl)
]
  where
    rest : (x : ℕ) (ip : Bytes) → has_colon (x ∷ ip) ≡ false → has_colon ip ≡ false
    rest x ip h = ground arith

is_digit_lem : (d : ℕ) → d < 10 → is_digit (b'0' + d) ≡ true
is_digit_lem d h = ground arith

read_digits_one :
    (d n : ℕ) (rest : Bytes) (acc : Option ℕ)
    → d < 10
    → n ≡ 10 * or_zero acc + d
    → read_digits ((b'0' + d) ∷ rest) acc ≡ read_digits rest (some n)
unfolding read_digits
read_digits_one d n rest acc h e =
    rw (is_digit_lem d h, read_digits)
      (ap (λ (k : ℕ). read_digits rest (some k)) {x = 10 * or_zero acc + (b'0' + d - b'0')} {y = n}
        (omega arith))

below_suc : (fuel n : ℕ) → n < 10 ^ suc (suc fuel) → n / 10 < 10 ^ suc fuel
below_suc fuel n h = let e : 10 ^ suc (suc fuel) ≡ 10 * 10 ^ suc fuel = omega arith in omega arith

read_digits-digits :
    (fuel n : ℕ) (rest : Bytes)
    → n < 10 ^ suc fuel
    → read_digits (digits (suc fuel) n rest) none ≡ read_digits rest (some n)
unfolding digits
read_digits-digits zero n rest h =
    rw (lt→ltb n 10 (omega arith), digits)
      (read_digits_one n n rest none (omega arith) (omega arith))
read_digits-digits (suc fuel) n rest h =
    let longer : read_digits (digits (suc fuel) (n / 10) ((b'0' + n % 10) ∷ rest)) none
        ≡ read_digits rest (some n) =
      read_digits-digits fuel (n / 10) ((b'0' + n % 10) ∷ rest) (below_suc fuel n h)
      ∙ read_digits_one (n % 10) n rest (some (n / 10)) (omega arith) (omega arith) in
    elim (Bool-cases (ltb n 10)) [
      | inl e ↦ rw (e, digits) (read_digits_one n n rest none (ltb→lt n 10 e) (omega arith))
      | inr e ↦ rw (e, digits) longer
    ]

digits_front :
    (fuel n : ℕ) (rest : Bytes)
    → n < 10 ^ suc fuel
    → (d : ℕ) × (more : Bytes) × (d < 10) × (digits (suc fuel) n rest ≡ (b'0' + d) ∷ more)
unfolding digits
digits_front zero n rest h = (n, rest, omega arith, rw (lt→ltb n 10 (omega arith), digits) refl)
digits_front (suc fuel) n rest h =
    let (d, more, small, e) =
      digits_front fuel (n / 10) ((b'0' + n % 10) ∷ rest) (below_suc fuel n h) in
    elim (Bool-cases (ltb n 10)) [
      | inl t ↦ (n, rest, ltb→lt n 10 t, rw (t, digits) refl)
      | inr t ↦ (d, more, small, rw (t, digits) e)
    ]

stoi_front :
    (d n : ℕ) (more : Bytes)
    → d < 10
    → n < 2 ^ 31
    → read_digits ((b'0' + d) ∷ more) none ≡ some n
    → stoi ((b'0' + d) ∷ more) ≡ some (pos n)
unfolding stoi
stoi_front d n more small short e =
    rw (not_space d small, skip_spaces)
      (rw (not_sign d small, signed)
        (rw (not_plus d small) (rw e (rw (lt→ltb n (2 ^ 31) short) refl))))
  where
    not_space : (d : ℕ) → d < 10 → is_space (b'0' + d) ≡ false
    not_space d h = ground arith

    not_sign : (d : ℕ) → d < 10 → ((b'0' + d) == b'-') ≡ false
    not_sign d h = ground arith

    not_plus : (d : ℕ) → d < 10 → ((b'0' + d) == b'+') ≡ false
    not_plus d h = ground arith

stoi-to_text : (n : ℕ) → n < 2 ^ 16 → stoi (to_text n) ≡ some (pos n)
unfolding to_text read_digits
stoi-to_text n h =
    let (d, more, small, e) = digits_front 19 n [] (omega arith) in
    rw e (
      stoi_front d n more small (omega arith)
        (ap (λ (t : Bytes). read_digits t none) (sym e) ∙ read_digits-digits 19 n [] (omega arith)))

abbrev pub connected_to : RegistryInfo → ℤ → Client → Client
connected_to node fd c = record c {
  server_ip = node.address;
  server_port = pos node.port;
  connection = some (open_fd fd);
  is_connected = true;
}

connect_loop-service_address :
    (node : RegistryInfo) (fd : ℤ) (attempts : List Attempt) (c : Client) (retries : ℕ)
    → has_colon node.address ≡ false
    → node.port < 2 ^ 16
    → 0 < retries
    → connect_loop retries
        (record { server_address = service_address node; socket = opened fd } ∷ attempts)
        c
      ≡ some (connected_to node fd c, returned true)
unfolding service_address init_socket connect_loop open_fd
connect_loop-service_address node fd attempts c zero host port tries = absurd (omega arith)
connect_loop-service_address node fd attempts c (suc retries) host port tries =
    rw (split_address-colon node.address (to_text node.port) host, connect_loop)
      (rw (stoi-to_text node.port port) refl)

-- A client that is told the address of a configured node, with a host that has no colon, and whose
-- socket is opened for it, connects to that host and that port.
pub connect-service_address :
    (node : RegistryInfo) (fd : ℤ) (attempts : List Attempt) (c : Client)
    → has_colon node.address ≡ false
    → node.port < 2 ^ 16
    → c.is_connected ≡ false
    → 0 < c.retry_times
    → connect (record { server_address = service_address node; socket = opened fd } ∷ attempts) c
      ≡ some (connected_to node fd c, returned true)
unfolding connect
connect-service_address node fd attempts c host port off tries =
    simp off (connect_loop-service_address node fd attempts c c.retry_times host port tries)
