-- ===== src/Service/Echo.antt =====
-- rpc_src/service/rpc_service.h: the Echo service. nlohmann::json is a parameter; `none` is a call
-- that throws.
use my_rpc_project_v.Base.{
  List, [], ◌∷◌, Option, none, some, Bytes, codes, bytes_eq, if◌then◌else◌, not,
}
use my_rpc_project_v.Service.{Service}

pub record Json : Type 1 where
  pub Value : Type 0
  pub parse : Bytes → Option Value
  -- value(key, default) of a string
  pub value_or : Value → Bytes → Bytes → Option Bytes
  -- An object with string fields.
  pub object : List (Bytes × Bytes) → Value
  pub dump : Value → Option Bytes

module _ (j : Json) where
  open j use {Value, parse, value_or, object, dump}

  infixl 5 ◌>>=◌
  abbrev ◌>>=◌ {ℓ κ} : {A : Type ℓ} {B : Type κ} → Option A → (A → Option B) → Option B
  none >>= f = none
  some a >>= f = f a

  unfoldable pub echo : Bytes → Bytes → Option Bytes
  echo method_name args = if not (bytes_eq method_name (codes "Echo")) then none else do
    request ← parse args
    message ← value_or request (codes "message") []
    dump (
        object (
          (codes "echo", codes "hello from myrpc server")
          ∷ (codes "received_message", message)
          ∷ []))

  unfoldable pub rpc_service : Service
  unfolding echo
  rpc_service = record { service_name = codes "RpcService"; handle_request = echo }
