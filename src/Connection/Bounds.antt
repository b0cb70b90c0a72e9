-- ===== src/Connection/Bounds.antt =====
-- What a call of Read does to the buffer, and frames that do not fit it.
use mathlib.Core.Option.{some-injective}
use my_rpc_project_v.Base.{
  ℕ, ◌+◌, ◌≤◌, ◌<◌, ◌≡◌, ◌∙◌, refl, sym, ap, arith, List, [], ◌∷◌, ◌++◌, append-nil, append_assoc,
  Bool, true, false, some, Bytes, length, length-append, net_word, net_word-append, ltb, Bool-cases,
  subst, ltb→ge, inl, inr,
}
use my_rpc_project_v.Connection.{
  Connection, is_connected, connected, disconnected, ReadResult, would_block, read_failed, got,
  read_loop, read, max_buffer_size, max_frame_size, chunk_size, incomplete, extract_frame,
}
use my_rpc_project_v.Compress.{Zstd}

-- The bytes that a list of answers brings.
abbrev pub received : List ReadResult → Bytes
received [] = []
received (would_block ∷ rs) = received rs
received (read_failed ∷ rs) = received rs
received (got bs ∷ rs) = bs ++ received rs

-- What one call of Read has done with the answers `rs`, of which it left `left`: it has used the
-- first of them, `new` is what it appended, and this is all that came unless it fails. It fails
-- only with the connection marked as down, and it keeps the buffer within its limit.
pub record ReadOutcome (rs left : List ReadResult) (c c' : Connection) (done : Bool) : Type 0 where
  pub used : List ReadResult
  pub new : Bytes
  pub split : rs ≡ used ++ left
  pub appended : c'.read_buffer ≡ c.read_buffer ++ new
  pub all_kept : done ≡ true → new ≡ received used
  pub bounded : length c.read_buffer ≤ max_buffer_size → length c'.read_buffer ≤ max_buffer_size
  pub same_fd : c'.fd ≡ c.fd
  pub still_up : done ≡ true → c'.state ≡ c.state
  pub torn_down : done ≡ false → c'.state ≡ disconnected

module _ (b : ℕ) (bs : Bytes) (rs : List ReadResult) (c : Connection) where
  abbrev extended : Connection
  extended = record c { read_buffer = c.read_buffer ++ (b ∷ bs) }

  overflow_step :
      ltb max_buffer_size (length c.read_buffer + length (b ∷ bs)) ≡ true
      → read_loop (got (b ∷ bs) ∷ rs) c ≡ some (record c { state = disconnected }, false, rs)
  unfolding read_loop
  overflow_step over = rw over

  short_step :
      ltb max_buffer_size (length c.read_buffer + length (b ∷ bs)) ≡ false
      → ltb (length (b ∷ bs)) chunk_size ≡ true
      → read_loop (got (b ∷ bs) ∷ rs) c ≡ some (extended, true, rs)
  unfolding read_loop
  short_step fits short = rw (fits, short)

  full_step :
      ltb max_buffer_size (length c.read_buffer + length (b ∷ bs)) ≡ false
      → ltb (length (b ∷ bs)) chunk_size ≡ false
      → read_loop (got (b ∷ bs) ∷ rs) c ≡ read_loop rs extended
  unfolding read_loop
  full_step fits full = rw (fits, full)

  extended_fits :
      ltb max_buffer_size (length c.read_buffer + length (b ∷ bs)) ≡ false
      → length extended.read_buffer ≤ max_buffer_size
  extended_fits fits = omega (
    arith,
    ltb→ge max_buffer_size (length c.read_buffer + length (b ∷ bs)) fits,
    length-append c.read_buffer (b ∷ bs),
  )

nothing_read :
    (r : ReadResult) (rs : List ReadResult) (c c' : Connection) (done : Bool)
    → c'.read_buffer ≡ c.read_buffer
    → c'.fd ≡ c.fd
    → (done ≡ true → c'.state ≡ c.state)
    → (done ≡ true → received (r ∷ []) ≡ [])
    → (done ≡ false → c'.state ≡ disconnected)
    → ReadOutcome (r ∷ rs) rs c c' done
nothing_read r rs c c' done same fd up none_lost down = record {
  used = r ∷ [];
  new = [];
  split = refl;
  appended = same ∙ sym (append-nil c.read_buffer);
  all_kept = λ e. sym (none_lost e);
  bounded = λ h. omega (arith, ap length same);
  same_fd = fd;
  still_up = up;
  torn_down = down;
}

-- The parts of an answer that a call gives.
same_answer :
    {rs : List ReadResult} {c : Connection} (p q : Connection × Bool × List ReadResult)
    → some p ≡ some q
    → ReadOutcome rs p.2 c p.0 p.1
    → ReadOutcome rs q.2 c q.0 q.1
same_answer {rs} {c} p q e o =
    subst (λ (t : Connection × Bool × List ReadResult). ReadOutcome rs t.2 c t.0 t.1)
      (some-injective p q e) o

read_loop-outcome :
    (rs : List ReadResult) (c c' : Connection) (done : Bool) (left : List ReadResult)
    → read_loop rs c ≡ some (c', done, left)
    → ReadOutcome rs left c c' done
read_loop-outcome [] c c' done left e = unfold read_loop in absurd (ground arith)
read_loop-outcome (would_block ∷ rs) c c' done left e =
    same_answer (c, true, rs) (c', done, left) (unfold read_loop in e)
      (nothing_read would_block rs c c true refl refl (λ _. refl) (λ _. refl) (λ f. cc))
read_loop-outcome (read_failed ∷ rs) c c' done left e =
    same_answer (record c { state = disconnected }, false, rs) (c', done, left)
      (unfold read_loop in e)
      (nothing_read read_failed rs c (record c { state = disconnected }) false refl refl (λ f. cc)
        (λ f. cc) (λ _. refl))
read_loop-outcome (got [] ∷ rs) c c' done left e =
    same_answer (record c { state = disconnected }, false, rs) (c', done, left)
      (unfold read_loop in e)
      (nothing_read (got []) rs c (record c { state = disconnected }) false refl refl (λ f. cc)
        (λ f. cc) (λ _. refl))
read_loop-outcome (got (b ∷ bs) ∷ rs) c c' done left e =
    elim (Bool-cases (ltb max_buffer_size (length c.read_buffer + length (b ∷ bs)))) [
      | inl over ↦
          same_answer (record c { state = disconnected }, false, rs) (c', done, left)
            (sym (overflow_step b bs rs c over) ∙ e)
            (nothing_read (got (b ∷ bs)) rs c (record c { state = disconnected }) false refl refl
              (λ f. cc) (λ f. cc) (λ _. refl))
      | inr fits ↦ elim (Bool-cases (ltb (length (b ∷ bs)) chunk_size)) [
        | inl short ↦
            same_answer (extended b bs rs c, true, rs) (c', done, left)
              (sym (short_step b bs rs c fits short) ∙ e)
              (record {
                used = got (b ∷ bs) ∷ [];
                new = b ∷ bs;
                split = refl;
                appended = refl;
                all_kept = λ _. sym (append-nil (b ∷ bs));
                bounded = λ _. extended_fits b bs rs c fits;
                same_fd = refl;
                still_up = λ _. refl;
                torn_down = λ f. cc;
              })
        | inr full ↦
            let o =
              read_loop-outcome rs (extended b bs rs c) c' done left
                (sym (full_step b bs rs c fits full) ∙ e) in
            record {
              used = got (b ∷ bs) ∷ o.used;
              new = (b ∷ bs) ++ o.new;
              split = ap (λ xs. got (b ∷ bs) ∷ xs) o.split;
              appended = o.appended ∙ append_assoc c.read_buffer (b ∷ bs) o.new;
              all_kept = λ h. ap (λ xs. (b ∷ bs) ++ xs) (o.all_kept h);
              bounded = λ _. o.bounded (extended_fits b bs rs c fits);
              same_fd = o.same_fd;
              still_up = o.still_up;
              torn_down = o.torn_down;
            }
      ]
    ]

open_read :
    (rs : List ReadResult) (c : Connection) → c.state ≡ connected → read rs c ≡ read_loop rs c
unfolding read
open_read rs c up = rw up

-- On a connection that is up, whatever read(2) answers: a call of Read that returns has used the
-- first answers, has appended all the bytes that they bring unless it returns false, returns false
-- only with the connection marked as down, and never takes the buffer past its limit.
pub read-ReadOutcome :
    (rs left : List ReadResult) (c c' : Connection) (done : Bool)
    → c.state ≡ connected
    → read rs c ≡ some (c', done, left)
    → ReadOutcome rs left c c' done
read-ReadOutcome rs left c c' done up e =
    read_loop-outcome rs c c' done left (sym (open_read rs c up) ∙ e)

read_loop-returns :
    (rs later : List ReadResult) (c : Connection)
    → (r : Connection × Bool × List ReadResult) × (read_loop (rs ++ (would_block ∷ later)) c
        ≡ some r)
read_loop-returns [] later c = ((c, true, later), unfold read_loop in refl)
read_loop-returns (would_block ∷ rs) later c =
    ((c, true, rs ++ (would_block ∷ later)), unfold read_loop in refl)
read_loop-returns (read_failed ∷ rs) later c = (
  (record c { state = disconnected }, false, rs ++ (would_block ∷ later)),
  unfold read_loop in refl,
)
read_loop-returns (got [] ∷ rs) later c = (
  (record c { state = disconnected }, false, rs ++ (would_block ∷ later)),
  unfold read_loop in refl,
)
read_loop-returns (got (b ∷ bs) ∷ rs) later c =
    let more = rs ++ (would_block ∷ later) in
    elim (Bool-cases (ltb max_buffer_size (length c.read_buffer + length (b ∷ bs)))) [
      | inl over ↦ (_, overflow_step b bs more c over)
      | inr fits ↦ elim (Bool-cases (ltb (length (b ∷ bs)) chunk_size)) [
        | inl short ↦ (_, short_step b bs more c fits short)
        | inr full ↦
            let (r, e) = read_loop-returns rs later (extended b bs more c) in
            (r, full_step b bs more c fits full ∙ e)
      ]
    ]

-- A call of Read returns once read(2) answers that nothing more is there.
pub read_returns :
    (rs later : List ReadResult) (c : Connection)
    → (r : Connection × Bool × List ReadResult) × (read (rs ++ (would_block ∷ later)) c ≡ some r)
unfolding read
read_returns rs later c = elim (Bool-cases (is_connected c.state)) [
  | inl up ↦ let (r, e) = read_loop-returns rs later c in (r, rw up e)
  | inr down ↦ ((c, false, rs ++ (would_block ∷ later)), rw down)
]

-- On a connection that is up, with a buffer within its limit that holds a size prefix: a frame
-- whose announced size passes the check but exceeds the buffer is never cut out; after any call of
-- Read it is still incomplete.
pub oversized_frame_stuck :
    (z : Zstd) (rs left : List ReadResult) (c c' : Connection) (done : Bool) (frame_out : Bytes)
    → c.state ≡ connected
    → 4 ≤ length c.read_buffer
    → length c.read_buffer ≤ max_buffer_size
    → max_buffer_size < 4 + net_word c.read_buffer
    → net_word c.read_buffer ≤ max_frame_size
    → read rs c ≡ some (c', done, left)
    → extract_frame z c' frame_out ≡ (c', incomplete, frame_out)
unfolding extract_frame
oversized_frame_stuck z rs left c c' done frame_out up prefix within large allowed e =
    let o = read-ReadOutcome rs left c c' done up e in
    ground (
      arith,
      ap net_word o.appended,
      ap length o.appended,
      length-append c.read_buffer o.new,
      net_word-append c.read_buffer o.new prefix,
      o.bounded within,
    )
