-- ===== src/Connection/Writing.antt =====
-- What a call of Write sends, and what Close closes.
use mathlib.Core.Option.{some-injective}
use my_rpc_project_v.Base.{
  ℕ, ◌<◌, ◌≡◌, ◌∙◌, refl, sym, ap, subst, arith, List, [], ◌∷◌, ◌++◌, append-nil, append_assoc,
  Bool, true, false, some, none, Bytes, length, take, drop, take-append-drop, Option-cases, ◌⊎◌,
  inl, inr, ℤ, pos, negsuc, is_nonneg, is_pos, if◌then◌else◌,
}
use my_rpc_project_v.Connection.{
  Connection, State, connected, disconnected, WriteResult, write_blocked, write_failed, wrote,
  write_loop, write_bytes, Written, after_write, close, is_valid,
}

-- What the loop has sent: all that was left, or a shorter front of it.
abbrev SentAll : Bytes → Bytes → Bytes → Bool → Type 0
SentAll left sent total true = total ≡ sent ++ left
SentAll left sent total false =
    (unsent : Bytes) × (total ++ unsent ≡ sent ++ left) × (0 < length unsent)

write_loop-SentAll :
    (ws : List WriteResult) (left sent total : Bytes) (done : Bool) (rest : List WriteResult)
    → write_loop ws left sent ≡ some (total, done, rest)
    → SentAll left sent total done
write_loop-SentAll ws [] sent total true rest e =
    unfold write_loop in ground (arith, append-nil sent)
write_loop-SentAll ws [] sent total false rest e = unfold write_loop in absurd (ground arith)
write_loop-SentAll [] (x ∷ xs) sent total done rest e = unfold write_loop in absurd (ground arith)
write_loop-SentAll (write_blocked ∷ ws) (x ∷ xs) sent total done rest e =
    write_loop-SentAll ws (x ∷ xs) sent total done rest (unfold write_loop in e)
write_loop-SentAll (write_failed ∷ ws) (x ∷ xs) sent total true rest e =
    unfold write_loop in absurd (ground arith)
write_loop-SentAll (write_failed ∷ ws) (x ∷ xs) sent total false rest e =
    (x ∷ xs, unfold write_loop in ground arith, omega arith)
write_loop-SentAll (wrote n ∷ ws) (x ∷ xs) sent total done rest e = regroup done (
    write_loop-SentAll ws (drop n (x ∷ xs)) (sent ++ take n (x ∷ xs)) total done rest
      (unfold write_loop in e))
  where
    same : (sent ++ take n (x ∷ xs)) ++ drop n (x ∷ xs) ≡ sent ++ (x ∷ xs)
    same =
        append_assoc sent (take n (x ∷ xs)) (drop n (x ∷ xs))
        ∙ ap (λ ys. sent ++ ys) (take-append-drop n (x ∷ xs))

    regroup :
        (b : Bool)
        → SentAll (drop n (x ∷ xs)) (sent ++ take n (x ∷ xs)) total b
        → SentAll (x ∷ xs) sent total b
    regroup true h = h ∙ same
    regroup false (unsent, h, more) = (unsent, h ∙ same, more)

State-cases : (s : State) → (s ≡ connected) ⊎ (s ≡ disconnected)
State-cases connected = inl refl
State-cases disconnected = inr refl

empty_write :
    (c : Connection) (ws : List WriteResult)
    → write_bytes c [] ws ≡ some (record { conn = c; result = false; sent = []; answers = ws })
unfolding write_bytes
empty_write c ws = refl

module _ (c : Connection) (x : ℕ) (xs : Bytes) (ws : List WriteResult) where
  closed_write :
      c.state ≡ disconnected
      → write_bytes c (x ∷ xs) ws
        ≡ some (record { conn = c; result = false; sent = []; answers = ws })
  unfolding write_bytes
  closed_write down = rw down

  open_write :
      c.state ≡ connected
      → write_bytes c (x ∷ xs) ws
        ≡ (elim (write_loop ws (x ∷ xs) []) [ none ↦ none | some r ↦ some (after_write c r) ])
  unfolding write_bytes
  open_write up = rw up

-- Write has sent everything.
pub record Delivered (c : Connection) (text : Bytes) (w : Written) : Type 0 where
  pub succeeded : w.result ≡ true
  pub all_sent : w.sent ≡ text
  pub was_up : c.state ≡ connected
  pub unchanged : w.conn ≡ c

-- Write has failed: a proper front of the string has gone out, unless there was none.
pub record Failed (c : Connection) (text : Bytes) (w : Written) : Type 0 where
  pub failed : w.result ≡ false
  pub unsent : Bytes
  pub front_sent : w.sent ++ unsent ≡ text
  pub proper : (text ≡ []) ⊎ (0 < length unsent)
  pub down : (text ≡ []) ⊎ (w.conn.state ≡ disconnected)
  pub same_buffer : w.conn.read_buffer ≡ c.read_buffer

abbrev pub Outcome : Connection → Bytes → Written → Type 0
Outcome c text w = Delivered c text w ⊎ Failed c text w

after_write-Outcome :
    (c : Connection) (text total : Bytes) (done : Bool) (rest : List WriteResult)
    → c.state ≡ connected
    → SentAll text [] total done
    → Outcome c text (after_write c (total, done, rest))
after_write-Outcome c text total true rest up h =
    inl (record { succeeded = refl; all_sent = h; was_up = up; unchanged = refl })
after_write-Outcome c text total false rest up (unsent, h, more) = inr (record {
  failed = refl;
  unsent = unsent;
  front_sent = h;
  proper = inr more;
  down = inr refl;
  same_buffer = refl;
})

-- Whatever write(2) answers: a call of Write on a string that returns true has sent the whole
-- string, on a connection that was up and stays as it is. One that returns false has sent a proper
-- front of the string and the connection is down, or the string was empty.
pub write_bytes-Outcome :
    (c : Connection) (text : Bytes) (ws : List WriteResult) (w : Written)
    → write_bytes c text ws ≡ some w
    → Outcome c text w
write_bytes-Outcome c [] ws w e =
    subst (λ v. Outcome c [] v) (some-injective _ w (sym (empty_write c ws) ∙ e))
      (inr (record {
        failed = refl;
        unsent = [];
        front_sent = refl;
        proper = inl refl;
        down = inl refl;
        same_buffer = refl;
      }))
write_bytes-Outcome c (x ∷ xs) ws w e = elim (State-cases c.state) [
  | inr down ↦
      subst (λ v. Outcome c (x ∷ xs) v) (some-injective _ w (sym (closed_write c x xs ws down) ∙ e))
        (inr (record {
          failed = refl;
          unsent = x ∷ xs;
          front_sent = refl;
          proper = inr (omega arith);
          down = inr down;
          same_buffer = refl;
        }))
  | inl up ↦ elim (Option-cases (write_loop ws (x ∷ xs) [])) [
    | inl waiting ↦ absurd (ground (arith, sym (open_write c x xs ws up) ∙ e, waiting))
    | inr ((total, done, rest), sent) ↦
        subst (λ v. Outcome c (x ∷ xs) v)
          (some-injective _ w (sym (rw (open_write c x xs ws up, sent)) ∙ e))
          (after_write-Outcome c (x ∷ xs) total done rest up
            (write_loop-SentAll ws (x ∷ xs) [] total done rest sent))
  ]
]

-- However often a connection is closed, its descriptor goes to close(2) at most once, namely the
-- first time and if it is not negative; afterwards the connection is down and not valid.
pub close_once :
    (c : Connection)
    → ((close c).1 ≡ (if is_nonneg c.fd then some c.fd else none))
      × ((close c).0.state ≡ disconnected)
      × (is_valid (close c).0 ≡ false)
      × ((close (close c).0).1 ≡ none)
unfolding close is_valid is_nonneg is_pos
close_once c = fd_cases c c.fd refl
  where
    fd_cases :
        (d : Connection) (fd : ℤ)
        → d.fd ≡ fd
        → ((close d).1 ≡ (if is_nonneg d.fd then some d.fd else none))
          × ((close d).0.state ≡ disconnected)
          × (is_valid (close d).0 ≡ false)
          × ((close (close d).0).1 ≡ none)
    fd_cases d (pos n) e = rw e (refl, refl, refl, refl)
    fd_cases d (negsuc n) e = rw e (refl, refl, refl, refl)
