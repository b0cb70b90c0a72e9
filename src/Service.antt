-- ===== src/Service.antt =====
-- rpc_src/service and rpc_src/core/error_code.h: services, their table, and the error codes.
-- A service answers with its result, or `none` where HandleRequest returns false.
pub mod Registered
pub mod Echo
mod Tests
use my_rpc_project_v.Base.{
  ℕ, List, [], ◌∷◌, Option, none, some, Bool, true, false, Bytes, codes, bytes_eq, if◌then◌else◌,
}

pub data ErrorCode : Type 0 where
  success service_not_found method_not_found invalid_request internal_error : ErrorCode

unfoldable pub error_number : ErrorCode → ℕ
error_number success = 0
error_number service_not_found = 3000
error_number method_not_found = 3001
error_number invalid_request = 6000
error_number internal_error = 6002

unfoldable pub error_message : ErrorCode → Bytes
error_message success = codes "Success"
error_message service_not_found = codes "Service not found"
error_message method_not_found = codes "Method not found"
error_message invalid_request = codes "Invalid request"
error_message internal_error = codes "Internal error"

pub record Service : Type 0 where
  pub service_name : Bytes
  pub handle_request : Bytes → Bytes → Option Bytes

-- services_
abbrev pub ServiceManager : Type 0
ServiceManager = List (Bytes × Service)

unfoldable pub find_service : ServiceManager → Bytes → Option Service
find_service [] name = none
find_service ((key, service) ∷ services) name =
    if bytes_eq key name then some service else find_service services name

abbrev is_some {ℓ} : {A : Type ℓ} → Option A → Bool
is_some none = false
is_some (some a) = true

-- RegisterService; no service stands for a null pointer.
unfoldable pub register_service : ServiceManager → Option Service → ServiceManager × Bool
register_service services none = (services, false)
register_service services (some service) = elim (find_service services service.service_name) [
  | some _ ↦ (services, false)
  | none ↦ ((service.service_name, service) ∷ services, true)
]

-- HandleRpcRequest
unfoldable pub handle_rpc_request : ServiceManager → Bytes → Bytes → Bytes → Option Bytes
handle_rpc_request services service_name method_name args =
    elim (find_service services service_name) [
      | none ↦ none
      | some service ↦ service.handle_request method_name args
    ]
