-- ===== src/Service/Tests.antt =====
-- Two services, one of them registered twice.
use my_rpc_project_v.Base.{◌≡◌, List, [], ◌∷◌, none, some, codes}
use my_rpc_project_v.Service.{Service, handle_rpc_request}
use my_rpc_project_v.Service.Registered.{
  results_all, new_names, register_all, first_named, handle-register_all,
}

abbrev copier : Service
copier = record { service_name = codes "Copy"; handle_request = λ method_name args. some args }

abbrev refuser : Service
refuser = record { service_name = codes "Copy"; handle_request = λ method_name args. none }

abbrev both : List Service
both = copier ∷ refuser ∷ []

handle-register_all_example :
    (results_all [] both ≡ new_names [] both)
    × (handle_rpc_request (register_all [] both) (codes "Copy") (codes "Run") (codes "abc")
        ≡ (elim (first_named (codes "Copy") both) [
          | none ↦ none
          | some s ↦ s.handle_request (codes "Run") (codes "abc")
        ]))
handle-register_all_example = handle-register_all both (codes "Copy") (codes "Run") (codes "abc")
