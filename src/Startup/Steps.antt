-- ===== src/Startup/Steps.antt =====
-- The steps of InitRpcServerConfig one after the other, and the pool's configuration under them.
use my_rpc_project_v.Base.{
  ℕ, ◌≡◌, ◌⊎◌, ◌∙◌, inl, inr, refl, sym, ap, arith, Option, none, some, Bool, true, false, Bytes,
  codes, if◌then◌else◌, ℤ, to_int, pos,
}
use my_rpc_project_v.Config.{Json}
use my_rpc_project_v.Discovery.{Answers}
use my_rpc_project_v.Startup.{
  ServerConfig, Process, set_servers_name_prefix, set_servers_ip, set_servers_port, set_timeout,
  set_max_connections, ◌>>>◌, read_text, read_number, read_basic, load_registry, connect_zk,
  choose_balancer,
}

-- The step before has succeeded, and so has the next one.
pub steps :
    (x : Process × Bool) (f : Process → Process × Bool) (r : Process)
    → (x >>> f) ≡ (r, true)
    → (q : Process) × (x ≡ (q, true)) × (f q ≡ (r, true))
unfolding ◌>>>◌
steps (p, false) f r h = ground (arith, ap (λ (o : Process × Bool). o.1) h)
steps (p, true) f r h = (p, refl, h)

module _ {ℓ} {A : Type ℓ} (p q : Process) where
  -- A part that is left out where its key is missing.
  pub optional :
      (t : Bool) (o : Option A) (f : A → Process × Bool)
      → ◌≡◌ {A = Process × Bool}
          (if t
            then elim o as (λ _. Process × Bool) [ none ↦ (p, false) | some v ↦ f v ]
            else (p, true))
          (q, true)
      → ((t ≡ false) × (p ≡ q)) ⊎ ((t ≡ true) × (v : A) × (o ≡ some v) × (f v ≡ (q, true)))
  optional false o f h = inl (refl, ap (λ (o : Process × Bool). o.0) h)
  optional true none f h = ground (arith, ap (λ (o : Process × Bool). o.1) h)
  optional true (some v) f h = inr (refl, v, refl, h)

-- The configuration of the pool is the one from before.
unfoldable pub Keeps : Process → Process × Bool → Type 0
Keeps p o = o.0.server.thread_pool ≡ p.server.thread_pool

pub Keeps-then :
    (p : Process) (x : Process × Bool) (f : Process → Process × Bool)
    → Keeps p x
    → ((q : Process) → Keeps q (f q))
    → Keeps p (x >>> f)
unfolding Keeps ◌>>>◌
Keeps-then p (q, false) f h k = h
Keeps-then p (q, true) f h k = k q ∙ h

pub kept_at :
    (p q : Process) (x : Process × Bool)
    → Keeps p x
    → x ≡ (q, true)
    → q.server.thread_pool ≡ p.server.thread_pool
unfolding Keeps
kept_at p q x k e = ap (λ (o : Process × Bool). o.0.server.thread_pool) (sym e) ∙ k

module _ {ℓ} {A : Type ℓ} (p q : Process) where
  pub needed :
      (o : Option A) (f : A → Process × Bool)
      → ◌≡◌ {A = Process × Bool}
          (elim o as (λ _. Process × Bool) [ none ↦ (p, false) | some v ↦ f v ])
          (q, true)
      → (v : A) × (o ≡ some v) × (f v ≡ (q, true))
  needed none f h = ground (arith, ap (λ (o : Process × Bool). o.1) h)
  needed (some v) f h = (v, refl, h)

module _ (j : Json) (files : Bytes → Option Bytes) (a : Answers) (config : j.Value) where
  read_text-Keeps :
      (key otherwise : Bytes) (set : Bytes → ServerConfig → ServerConfig) (p : Process)
      → ((v : Bytes) (s : ServerConfig) → (set v s).thread_pool ≡ s.thread_pool)
      → Keeps p (read_text j files a config key otherwise set p)
  unfolding read_text Keeps
  read_text-Keeps key otherwise set p keeps = by_value (j.text_value config key otherwise)
    where
      by_value :
          (o : Option Bytes)
          → (elim o as (λ _. Process × Bool) [
            | none ↦ (p, false)
            | some v ↦ (record p { server = set v p.server }, true)
          ]).0.server.thread_pool
            ≡ p.server.thread_pool
      by_value none = refl
      by_value (some v) = keeps v p.server

  read_number-Keeps :
      (key : Bytes) (otherwise : ℕ) (set : ℤ → ServerConfig → ServerConfig) (p : Process)
      → ((v : ℤ) (s : ServerConfig) → (set v s).thread_pool ≡ s.thread_pool)
      → Keeps p (read_number j files a config key otherwise set p)
  unfolding read_number Keeps
  read_number-Keeps key otherwise set p keeps = by_value (j.number_value config key (pos otherwise))
    where
      by_value :
          (o : Option ℤ)
          → (elim o as (λ _. Process × Bool) [
            | none ↦ (p, false)
            | some v ↦ (record p { server = set (to_int v) p.server }, true)
          ]).0.server.thread_pool
            ≡ p.server.thread_pool
      by_value none = refl
      by_value (some v) = keeps (to_int v) p.server

  pub read_basic-Keeps : (p : Process) → Keeps p (read_basic j files a config p)
  unfolding read_basic set_servers_name_prefix set_servers_ip set_servers_port set_timeout
      set_max_connections
  read_basic-Keeps p =
      Keeps-then p _
        (read_number j files a config (codes "max_connections") 1000 set_max_connections)
        (Keeps-then p _ (read_number j files a config (codes "timeout") 3000 set_timeout)
          (Keeps-then p _
            (read_number j files a config (codes "servers_port") 8989 set_servers_port)
            (Keeps-then p _
              (read_text j files a config (codes "servers_ip") (codes "0.0.0.0") set_servers_ip)
              (read_text-Keeps (codes "servers_name_prefix") (codes "myrpc") set_servers_name_prefix
                p (λ v s. refl))
              (λ q.
                read_text-Keeps (codes "servers_ip") (codes "0.0.0.0") set_servers_ip q
                  (λ v s. refl)))
            (λ q. read_number-Keeps (codes "servers_port") 8989 set_servers_port q (λ v s. refl)))
          (λ q. read_number-Keeps (codes "timeout") 3000 set_timeout q (λ v s. refl)))
        (λ q. read_number-Keeps (codes "max_connections") 1000 set_max_connections q (λ v s. refl))

  pub load_registry-Keeps : (p : Process) → Keeps p (load_registry j files a config p)
  unfolding load_registry Keeps
  load_registry-Keeps p = ground arith

  pub connect_zk-Keeps : (p : Process) → Keeps p (connect_zk j files a config p)
  unfolding connect_zk Keeps
  connect_zk-Keeps p = ground arith

  pub choose_balancer-Keeps : (p : Process) → Keeps p (choose_balancer j files a config p)
  unfolding choose_balancer Keeps
  choose_balancer-Keeps p = ground arith
