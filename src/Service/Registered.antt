-- ===== src/Service/Registered.antt =====
-- Which service answers after registrations.
use my_rpc_project_v.Base.{
  ◌≡◌, ◌∙◌, ap, refl, arith, List, [], ◌∷◌, Option, none, some, Bool, true, false, Bytes, bytes_eq,
  bytes_eq-eq, if◌then◌else◌, Bool-cases, inl, inr, ap₂, not, ◌||◌,
}
use my_rpc_project_v.Service.{
  Service, ServiceManager, find_service, register_service, handle_rpc_request,
}

-- The registrations of a list of services, in order, from an empty table.
unfoldable pub register_all : ServiceManager → List Service → ServiceManager
register_all services [] = services
register_all services (s ∷ ss) = register_all (register_service services (some s)).0 ss

-- The first service of the list that has the name.
unfoldable pub first_named : Bytes → List Service → Option Service
first_named name [] = none
first_named name (s ∷ ss) = if bytes_eq s.service_name name then some s else first_named name ss

abbrev or_else {ℓ} : {A : Type ℓ} → Option A → Option A → Option A
or_else none o = o
or_else (some a) o = some a

or_else-none {ℓ} : {A : Type ℓ} (o : Option A) → o ≡ or_else o none
or_else-none none = refl
or_else-none (some a) = refl

or_else-if {ℓ} :
    {A : Type ℓ} (o : Option A) (b : Bool) (a : A) (rest : Option A)
    → or_else (or_else o (if b then some a else none)) rest ≡ or_else o (if b then some a else rest)
or_else-if none true a rest = refl
or_else-if none false a rest = refl
or_else-if (some c) b a rest = refl

register-find :
    (services : ServiceManager) (s : Service) (name : Bytes)
    → find_service (register_service services (some s)).0 name
      ≡ or_else (find_service services name) (if bytes_eq s.service_name name then some s else none)
unfolding register_service find_service
register-find services s name = elim (Bool-cases (bytes_eq s.service_name name)) [
  | inl same ↦
      let e : s.service_name ≡ name = bytes_eq-eq s.service_name name same in
      ground (arith, same, e, ap (λ n. find_service services n) e)
  | inr other ↦ ground (arith, other)
]

register_all-find :
    (services : ServiceManager) (ss : List Service) (name : Bytes)
    → find_service (register_all services ss) name
      ≡ or_else (find_service services name) (first_named name ss)
unfolding register_all first_named
register_all-find services [] name = or_else-none (find_service services name)
register_all-find services (s ∷ ss) name =
    register_all-find (register_service services (some s)).0 ss name
    ∙ rw (register-find services s name) (
        or_else-if (find_service services name) (bytes_eq s.service_name name) s
          (first_named name ss))

-- What the registrations return.
unfoldable pub results_all : ServiceManager → List Service → List Bool
results_all services [] = []
results_all services (s ∷ ss) =
    (register_service services (some s)).1 ∷ results_all (register_service services (some s)).0 ss

unfoldable pub has_name : Bytes → List Bytes → Bool
has_name name [] = false
has_name name (x ∷ xs) = bytes_eq x name || has_name name xs

-- Whether the name of each service is new, `seen` being the names before the list.
unfoldable pub new_names : List Bytes → List Service → List Bool
new_names seen [] = []
new_names seen (s ∷ ss) = not (has_name s.service_name seen) ∷ new_names (s.service_name ∷ seen) ss

abbrev is_there : Option Service → Bool
is_there none = false
is_there (some s) = true

-- The names of the table are those of the list.
abbrev SameNames : ServiceManager → List Bytes → Type 0
SameNames services seen =
    (name : Bytes) → is_there (find_service services name) ≡ has_name name seen

register-result :
    (services : ServiceManager) (s : Service)
    → (register_service services (some s)).1 ≡ not (is_there (find_service services s.service_name))
unfolding register_service
register-result services s = ground arith

register-SameNames :
    (services : ServiceManager) (seen : List Bytes) (s : Service)
    → SameNames services seen
    → SameNames (register_service services (some s)).0 (s.service_name ∷ seen)
unfolding has_name
register-SameNames services seen s same name =
    ap is_there (register-find services s name)
    ∙ by_cases (find_service services name) (bytes_eq s.service_name name) (same name)
  where
    by_cases :
        (o : Option Service) (hit : Bool)
        → is_there o ≡ has_name name seen
        → is_there (or_else o (if hit then some s else none)) ≡ (hit || has_name name seen)
    by_cases none true e = refl
    by_cases none false e = e
    by_cases (some t) true e = refl
    by_cases (some t) false e = e

results-new_names :
    (services : ServiceManager) (seen : List Bytes) (ss : List Service)
    → SameNames services seen
    → results_all services ss ≡ new_names seen ss
unfolding results_all new_names
results-new_names services seen [] same = refl
results-new_names services seen (s ∷ ss) same =
    ap₂ ◌∷◌ (register-result services s ∙ ap not (same s.service_name)) (
      results-new_names (register_service services (some s)).0 (s.service_name ∷ seen) ss
        (register-SameNames services seen s same))

-- After registering services in any order a request goes to the first one registered under its
-- service name; with no such service it fails. A registration returns true just where no service
-- before it has the name, so that later ones under the name are refused.
pub handle-register_all :
    (ss : List Service) (service_name method_name args : Bytes)
    → (results_all [] ss ≡ new_names [] ss)
      × (handle_rpc_request (register_all [] ss) service_name method_name args
          ≡ (elim (first_named service_name ss) [
            | none ↦ none
            | some s ↦ s.handle_request method_name args
          ]))
unfolding handle_rpc_request find_service has_name
handle-register_all ss service_name method_name args = (
  results-new_names [] [] ss (λ name. refl),
  rw (register_all-find [] ss service_name, handle_rpc_request) refl,
)
