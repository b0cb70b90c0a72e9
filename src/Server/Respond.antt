-- ===== src/Server/Respond.antt =====
-- MessageCycle::HandleRpcRequestSync of rpc_src/network/message_cycle.cpp: a task of the thread pool
-- answers a request on its connection.
use my_rpc_project_v.Base.{
  ℕ, ◌≡◌, ◌≢◌, refl, arith, List, [], ◌∷◌, Option, none, some, Bool, true, false, ◌||◌, Bytes, set,
  if◌then◌else◌, ◌⊎◌, inl, inr, Bool-cases, ap,
}
use my_rpc_project_v.Protocol.Request.{RpcRequest}
use my_rpc_project_v.Protocol.Response.{RpcResponse}
use my_rpc_project_v.Compress.{Zstd}
use my_rpc_project_v.Connection.{WriteResult, Written, write_response}
use my_rpc_project_v.Service.{
  ServiceManager, handle_rpc_request, ErrorCode, success, service_not_found, invalid_request,
  error_number, error_message,
}
use my_rpc_project_v.Server.Cycle.{Server, object_at}

-- The response that HandleRpcRequestSync makes for a request.
unfoldable pub error_response : ℕ → ErrorCode → RpcResponse
unfolding error_number error_message
error_response sequence_id code = record {
  sequence_id = sequence_id;
  result_data = [];
  error_message = error_message code;
  error_code = error_number code;
}

abbrev pub is_empty : Bytes → Bool
is_empty [] = true
is_empty (x ∷ xs) = false

unfoldable pub respond : ServiceManager → RpcRequest → RpcResponse
unfolding error_response
respond services request =
    if is_empty request.service_name || is_empty request.method_name
    then error_response request.sequence_id invalid_request
    else elim (handle_rpc_request services request.service_name request.method_name
        request.payload) [
          | none ↦ error_response request.sequence_id service_not_found
          | some result ↦ record {
            sequence_id = request.sequence_id;
            result_data = result;
            error_message = error_message success;
            error_code = error_number success;
          }
        ]

-- The task for `conn` and `request`: the server, the result of the Write and what it sent. With no
-- such object, or with a Write that still waits, it gives none.
unfoldable pub handle_rpc_request_sync :
    (z : Zstd)
    → (ℕ → ℕ)
    → ServiceManager
    → Server
    → ℕ
    → RpcRequest
    → List WriteResult
    → Option (Server × Written)
handle_rpc_request_sync z draw services s conn request ws = elim (object_at s.objects conn) [
  | none ↦ none
  | some c ↦ elim (write_response z draw c (respond services request) ws) [
    | none ↦ none
    | some w ↦ some (record s { objects = set s.objects conn w.conn }, w)
  ]
]

-- Which of the three answers a request gets.
pub record Answer (services : ServiceManager) (request : RpcRequest) (r : RpcResponse)
    : Type 0 where
  pub same_sequence : r.sequence_id ≡ request.sequence_id
  -- No service name or no method name.
  pub invalid :
      (request.service_name ≡ []) ⊎ (request.method_name ≡ [])
      → (r.error_code ≡ 6000) × (r.result_data ≡ [])
  pub refused :
      request.service_name ≢ []
      → request.method_name ≢ []
      → handle_rpc_request services request.service_name request.method_name request.payload ≡ none
      → (r.error_code ≡ 3000) × (r.result_data ≡ [])
  pub answered :
      (result : Bytes)
      → request.service_name ≢ []
      → request.method_name ≢ []
      → handle_rpc_request services request.service_name request.method_name request.payload
        ≡ some result
      → (r.error_code ≡ 0) × (r.result_data ≡ result)

is_empty-false : {xs : Bytes} → xs ≢ [] → is_empty xs ≡ false
is_empty-false {xs = []} h = absurd (h refl)
is_empty-false {xs = x ∷ xs} h = refl

sequence_kept :
    (services : ServiceManager) (request : RpcRequest)
    → (respond services request).sequence_id ≡ request.sequence_id
unfolding respond
sequence_kept services request = ground arith

missing_method :
    (services : ServiceManager) (request : RpcRequest)
    → request.method_name ≡ []
    → (is_empty request.service_name ≡ true) ⊎ (is_empty request.service_name ≡ false)
    → ((respond services request).error_code ≡ 6000) × ((respond services request).result_data ≡ [])
unfolding respond
missing_method services request no_method (inl h) = rw (h, respond) (refl, refl)
missing_method services request no_method (inr h) =
    rw (h, ap is_empty no_method, respond) (refl, refl)

-- Every request is answered under its own sequence number: with 6000 and no data where a name is
-- missing, with 3000 and no data where the table of services gives no result, and else with 0 and
-- the result.
pub respond-Answer :
    (services : ServiceManager) (request : RpcRequest)
    → Answer services request (respond services request)
unfolding respond
respond-Answer services request = record {
  same_sequence = sequence_kept services request;
  invalid = λ h. elim h [
    | inl no_service ↦ rw (ap is_empty no_service, respond) (refl, refl)
    | inr no_method ↦
        missing_method services request no_method (Bool-cases (is_empty request.service_name))
  ];
  refused = λ service method h.
      rw (is_empty-false service, is_empty-false method, h, respond) (refl, refl);
  answered = λ result service method h.
      rw (is_empty-false service, is_empty-false method, h, respond) (refl, refl);
}
