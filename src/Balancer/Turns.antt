-- ===== src/Balancer/Turns.antt =====
-- As many choices of a cyclic balancer as there are servers.
use native.Mathlib.Nat.{mod-add-mod, mod-eq_of_lt, mod-lt, add-mod_left, add-mod_right}
use my_rpc_project_v.Base.{
  ℕ, zero, suc, ◌+◌, ◌-◌, ◌%◌, ◌^◌, ◌≤◌, ◌<◌, ◌≡◌, ◌∙◌, refl, sym, ap, ap₂, arith, List, [], ◌∷◌,
  ◌++◌, Bytes, length, get_or, take, drop, drop_all, ==_iff, replicate, ge→ltb, ◌==◌, if◌then◌else◌,
  Bool-cases, inl, inr,
}
use my_rpc_project_v.Balancer.{
  Balancer, round, weight, select, select_round, select_weight, weight_loop, total_of,
}

-- `k` choices in a row, and the balancer behind them.
unfoldable pub turns : ℕ → Balancer → List Bytes → List Bytes × Balancer
turns zero b servers = ([], b)
turns (suc k) b servers =
    let (server, next) = select b 0 servers in
    let (others, last) = turns k next servers in (server ∷ others, last)

-- The place behind `a` in a cycle of `n`.
abbrev after : ℕ → ℕ → ℕ
after n a = if a + 1 == n then 0 else a + 1

after-next : (n a : ℕ) → suc a < n → after n a ≡ suc a
after-next n a h = ground arith

after-last : (n a : ℕ) → suc a ≡ n → after n a ≡ 0
after-last n a h = ground arith

-- `k` elements from place `a` on, around the end.
walk {ℓ} : {A : Type ℓ} → A → ℕ → ℕ → List A → List A
walk d zero a xs = []
walk d (suc k) a xs = get_or xs a d ∷ walk d k (after (length xs) a) xs

module _ {ℓ} {A : Type ℓ} (d : A) where
  drop-step : (a : ℕ) (xs : List A) → a < length xs → drop a xs ≡ get_or xs a d ∷ drop (suc a) xs
  drop-step a [] h = absurd (omega arith)
  drop-step zero (x ∷ xs) h = refl
  drop-step (suc a) (x ∷ xs) h = drop-step a xs (omega arith)

  walk-take : (m a : ℕ) (xs : List A) → a + m ≤ length xs → walk d m a xs ≡ take m (drop a xs)
  unfolding walk
  walk-take zero a xs h = refl
  walk-take (suc zero) a xs h = ap (take 1) (sym (drop-step a xs (omega arith)))
  walk-take (suc (suc m)) a xs h =
      ap (λ zs. get_or xs a d ∷ zs)
        (ap (λ b. walk d (suc m) b xs) (after-next (length xs) a (omega arith))
          ∙ walk-take (suc m) (suc a) xs (omega arith))
      ∙ ap (take (suc (suc m))) (sym (drop-step a xs (omega arith)))

  walk-around :
      (j a m : ℕ) (xs : List A)
      → a + suc j ≡ length xs
      → m ≤ length xs
      → walk d (suc (j + m)) a xs ≡ drop a xs ++ take m xs
  unfolding walk
  walk-around zero a m xs h k =
      ap (λ zs. get_or xs a d ∷ zs)
        (ap₂ (λ i b. walk d i b xs) {y = m} (omega arith) (after-last (length xs) a (omega arith))
          ∙ walk-take m 0 xs (omega arith)
          ∙ ap (λ ys. ys ++ take m xs) (sym (drop_all (suc a) xs (omega arith))))
      ∙ ap (λ ys. ys ++ take m xs) (sym (drop-step a xs (omega arith)))
  walk-around (suc j) a m xs h k =
      ap (λ zs. get_or xs a d ∷ zs)
        (ap₂ (λ i b. walk d i b xs) {y = suc (j + m)} (omega arith)
            (after-next (length xs) a (omega arith))
          ∙ walk-around j (suc a) m xs (omega arith) k)
      ∙ ap (λ ys. ys ++ take m xs) (sym (drop-step a xs (omega arith)))

  walk-rotation :
      (a : ℕ) (xs : List A) → a < length xs → walk d (length xs) a xs ≡ drop a xs ++ take a xs
  walk-rotation a xs h =
      ap (λ k. walk d k a xs) {y = suc (length xs - a - 1 + a)} (omega arith)
      ∙ walk-around (length xs - a - 1) a a xs (omega arith) (omega arith)

mod_self : (n : ℕ) → 0 < n → n % n ≡ 0
mod_self n h = ap (λ k. k % n) {y = n + 0} (omega arith) ∙ add-mod_left n 0 ∙ mod-eq_of_lt h

-- The place of the next index.
after-mod : (n i : ℕ) → 0 < n → (i + 1) % n ≡ after n (i % n)
after-mod n i h = sym (mod-add-mod i n 1) ∙ elim (Bool-cases (i % n + 1 == n)) [
  | inl end ↦ rw end (ap (λ k. k % n) ((==_iff _ n).0 end) ∙ mod_self n h)
  | inr more ↦ rw more (mod-eq_of_lt (ground (arith, more, mod-lt i h)))
]

module _ (s : Bytes) (ss : List Bytes) where
  abbrev servers : List Bytes
  servers = s ∷ ss

  round-walk :
      (k i : ℕ)
      → i < 2 ^ 64
      → i + k ≤ 2 ^ 64
      → turns k (round i) servers
        ≡ (walk [] k (i % length servers) servers, round ((i + k) % 2 ^ 64))
  unfolding turns walk select select_round
  round-walk zero i below h = ap (λ n. ([], round n)) (omega arith)
  round-walk (suc zero) i below h = refl
  round-walk (suc (suc k)) i below h =
      ap
        (λ n. (
          get_or servers (i % length servers) [] ∷ (turns (suc k) (round n) servers).0,
          (turns (suc k) (round n) servers).1,
        ))
        {y = i + 1} (omega arith)
      ∙ ap (λ r. (get_or servers (i % length servers) [] ∷ r.0, r.1))
          (round-walk (suc k) (i + 1) (omega arith) (omega arith))
      ∙ ap₂ (λ a n. (get_or servers (i % length servers) [] ∷ walk [] (suc k) a servers, round n))
          (after-mod (length servers) i (omega arith)) (omega arith)

  pub weight_loop-get :
      (j current : ℕ) (xs : List Bytes) (fallback : Bytes)
      → j < length xs
      → weight_loop (current + j) current xs (replicate (length xs) 1) fallback ≡ get_or xs j []
  unfolding weight_loop
  weight_loop-get j current [] fallback h = absurd (omega arith)
  weight_loop-get zero current (x ∷ xs) fallback h = ground arith
  weight_loop-get (suc j) current (x ∷ xs) fallback h =
      rw (ge→ltb (current + suc j) (current + 1) (omega arith)) (
        ap (λ i. weight_loop i (current + 1) xs (replicate (length xs) 1) fallback)
          {y = current + 1 + j} (omega arith)
        ∙ weight_loop-get j (current + 1) xs fallback (omega arith))

  pub total_of-ones : (n total : ℕ) → total_of (replicate n 1) total ≡ total + n
  unfolding total_of
  total_of-ones zero total = omega arith
  total_of-ones (suc n) total = omega (arith, total_of-ones n (total + 1))

  weight-step :
      (c : ℕ)
      → c < length servers
      → select_weight c servers
        ≡ (get_or servers (after (length servers) c) [], after (length servers) c)
  unfolding select_weight
  weight-step c h =
      ap (λ i. (weight_loop i 0 servers (replicate (length servers) 1) s, i)) place
      ∙ ap (λ b. (b, after (length servers) c))
          (ap (λ i. weight_loop i 0 servers (replicate (length servers) 1) s)
              {y = 0 + after (length servers) c} (omega arith)
            ∙ weight_loop-get (after (length servers) c) 0 servers s (ground (arith, h)))
    where
      place : (c + 1) % total_of (replicate (length servers) 1) 0 ≡ after (length servers) c
      place =
          ap (λ n. (c + 1) % n) {y = length servers}
            (omega (arith, total_of-ones (length servers) 0))
          ∙ after-mod (length servers) c (omega arith)
          ∙ ap (after (length servers)) (mod-eq_of_lt h)

  weight-walk :
      (k c : ℕ)
      → c < length servers
      → turns k (weight c) servers
        ≡ (walk [] k (after (length servers) c) servers, weight ((c + k) % length servers))
  unfolding turns walk select
  weight-walk zero c h =
      ap (λ n. ([], weight n))
        (sym (ap (λ n. n % length servers) {y = c} (omega arith) ∙ mod-eq_of_lt h))
  weight-walk (suc k) c h =
      ap (λ r. (r.0 ∷ (turns k (weight r.1) servers).0, (turns k (weight r.1) servers).1))
        (weight-step c h)
      ∙ ap (λ r. (get_or servers (after (length servers) c) [] ∷ r.0, r.1))
          (weight-walk k (after (length servers) c) (ground (arith, h)))
      ∙ ap
          (λ n. (
            get_or servers (after (length servers) c) []
                ∷ walk [] k (after (length servers) (after (length servers) c)) servers,
            weight n,
          ))
          moved
    where
      moved : (after (length servers) c + k) % length servers ≡ (c + suc k) % length servers
      moved =
          ap (λ a. (a + k) % length servers)
            (sym (
              after-mod (length servers) c (omega arith)
              ∙ ap (after (length servers)) (mod-eq_of_lt h)))
          ∙ mod-add-mod (c + 1) (length servers) k
          ∙ ap (λ n. n % length servers) (omega arith)

-- As many choices of the round-robin balancer in a row as there are servers, if there are any and
-- before the index of 64 bits wraps around, visit every server once: they are the list, turned to
-- start at the index.
pub round_visits_all :
    (servers : List Bytes) (i : ℕ)
    → 0 < length servers
    → i < 2 ^ 64
    → i + length servers ≤ 2 ^ 64
    → turns (length servers) (round i) servers ≡ (
      drop (i % length servers) servers ++ take (i % length servers) servers,
      round ((i + length servers) % 2 ^ 64),
    )
round_visits_all [] i some_server below h = absurd (omega arith)
round_visits_all (s ∷ ss) i some_server below h =
    round-walk s ss (length (s ∷ ss)) i below h
    ∙ ap (λ xs. (xs, round ((i + length (s ∷ ss)) % 2 ^ 64)))
        (walk-rotation [] (i % length (s ∷ ss)) (s ∷ ss) (mod-lt i some_server))

-- As many choices of the weighted balancer in a row as there are servers, with its index below
-- their number, visit every server once, starting behind the index, and leave the index as it was.
pub weight_visits_all :
    (servers : List Bytes) (c : ℕ)
    → c < length servers
    → turns (length servers) (weight c) servers ≡ (
      drop ((c + 1) % length servers) servers ++ take ((c + 1) % length servers) servers,
      weight c,
    )
weight_visits_all [] c h = absurd (omega arith)
weight_visits_all (s ∷ ss) c h =
    weight-walk s ss (length (s ∷ ss)) c h
    ∙ ap₂ (λ xs n. (xs, weight n))
        (walk-rotation [] (after (length (s ∷ ss)) c) (s ∷ ss) (ground (arith, h))
          ∙ ap (λ a. drop a (s ∷ ss) ++ take a (s ∷ ss))
              (sym (
                after-mod (length (s ∷ ss)) c (omega arith)
                ∙ ap (after (length (s ∷ ss))) (mod-eq_of_lt h))))
        (add-mod_right c (length (s ∷ ss)) ∙ mod-eq_of_lt h)
