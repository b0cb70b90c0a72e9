-- ===== src/Remote.antt =====
-- One call through all parts: from rpc_src/core/rpc_client over the wire to
-- rpc_src/network/message_cycle, to a task of the thread pool, to the service, and back.
mod Tests
use my_rpc_project_v.Base.{
  ℕ, ◌+◌, ◌%◌, ◌^◌, ◌≤◌, ◌≡◌, ◌≢◌, ◌∙◌, refl, sym, ap, arith, List, [], ◌∷◌, ◌++◌, append-nil,
  Option, none, some, Bool, true, if◌then◌else◌, set, Bytes, length, ℤ, Option-cases, inl, inr,
}
use my_rpc_project_v.Protocol.Request.{RpcRequest, IsRequest}
use my_rpc_project_v.Protocol.Response.{RpcResponse, IsResponse}
use my_rpc_project_v.Compress.{Zstd, ZstdLaws}
use my_rpc_project_v.Connection.{
  Connection, Written, write_request, write_response, WriteResult, SelectResult, ReadResult, read,
  read_with_timeout, max_frame_size, extract_frame, incomplete,
}
use my_rpc_project_v.Connection.Delivery.{write_frame-sent}
use my_rpc_project_v.Service.{ServiceManager, handle_rpc_request}
use my_rpc_project_v.Server.Manager.{get_connection}
use my_rpc_project_v.Server.Cycle.{Server, object_at, handle_client_data}
use my_rpc_project_v.Server.Cycle.Stream.{Sent, handed, is_taken, handle_client_data-front}
use my_rpc_project_v.Server.Respond.{respond, respond-Answer, handle_rpc_request_sync}
use my_rpc_project_v.Client.{Client, of_option, Answers, request_for, call}
use my_rpc_project_v.Client.Answer.{Replied, call_answered}

module _ (z : Zstd) where
  request-Sent :
      (draw : ℕ → ℕ) (k : Connection) (request : RpcRequest) (ws : List WriteResult) (w : Written)
      → IsRequest request
      → write_request z draw k request ws ≡ some w
      → w.result ≡ true
      → length w.sent ≤ 4 + max_frame_size
      → Sent z request w.sent
  unfolding write_request
  request-Sent draw k request ws w valid e ok within = record {
    draw = draw;
    valid = valid;
    written = write_frame-sent z draw k _ ws w e ok;
    within = within;
  }

  -- What a task that has answered a request has put on the wire.
  task-Replied :
      (draw : ℕ → ℕ) (services : ServiceManager) (s s' : Server) (conn : ℕ) (request : RpcRequest)
      (ws : List WriteResult) (v : Written)
      → IsResponse (respond services request)
      → handle_rpc_request_sync z draw services s conn request ws ≡ some (s', v)
      → v.result ≡ true
      → length v.sent ≤ 4 + max_frame_size
      → Replied z (respond services request) v.sent
  unfolding handle_rpc_request_sync write_response
  task-Replied draw services s s' conn request ws v valid e ok within =
      elim (Option-cases (object_at s.objects conn)) [
        | inl missing ↦ absurd (ground (arith, e, missing))
        | inr (c, found) ↦
            elim (Option-cases (write_response z draw c (respond services request) ws)) [
              | inl waits ↦ absurd (ground (arith, e, found, waits))
              | inr (v', written) ↦ record {
                draw = draw;
                valid = valid;
                written =
                    write_frame-sent z draw c _ ws v
                      (written ∙ ap some (ground (arith, e, found, written))) ok;
                within = within;
              }
            ]
      ]

module _ (z : Zstd) (laws : ZstdLaws z) {A : Type 0} (decode : Bytes → Option A) where
  -- A call of a method is a call of the service's handler, under the laws of zstd. The client is
  -- connected and writes a request with both names and a payload, of C++ sizes and within the frame
  -- limit; its bytes are what the server's reading has put into the buffer, and enqueue takes the
  -- task. Then the server hands over this request and no other. If a task answers it, the table of
  -- services gives a result, and the response, of C++ sizes and within the frame limit, is written
  -- and comes with the first reading of the client, then the call returns what the result decodes
  -- to.
  pub call_served :
      (draw draw' : ℕ → ℕ) (c : Client) (k k1 : Connection) (service_name method_name more : Bytes)
      (first : ℕ) (answers : Answers) (w v : Written) (services : ServiceManager) (s s' : Server)
      (fd : ℤ) (conn : ℕ) (kc kc' : Connection) (reads unread : List ReadResult)
      (ws : List WriteResult) (result rest : Bytes) (ss : List SelectResult)
      (rs left : List ReadResult) (rounds : List (List SelectResult × List ReadResult))
      → let request =
          request_for ((c.sequence_id + 1) % 2 ^ 32) service_name method_name (first ∷ more) in
        let handed_over =
          handed
            (record s { objects = set s.objects conn (record kc' { read_buffer = [] }) })
            conn
            request
            true in
        c.is_connected ≡ true
        → c.connection ≡ some k
        → IsRequest request
        → write_request z draw k request answers.writes ≡ some w
        → w.result ≡ true
        → length w.sent ≤ 4 + max_frame_size
        → get_connection fd s.connections ≡ some conn
        → object_at s.objects conn ≡ some kc
        → read reads kc ≡ some (kc', true, unread)
        → kc'.read_buffer ≡ w.sent
        → s.enqueues 0 ≡ some true
        → service_name ≢ []
        → method_name ≢ []
        → handle_rpc_request services service_name method_name (first ∷ more) ≡ some result
        → IsResponse (respond services request)
        → handle_rpc_request_sync z draw' services handed_over conn request ws ≡ some (s', v)
        → v.result ≡ true
        → length v.sent ≤ 4 + max_frame_size
        → answers.rounds ≡ (ss, rs) ∷ rounds
        → read_with_timeout ss rs w.conn ≡ some (k1, true, left)
        → k1.read_buffer ≡ v.sent ++ rest
        → (handle_client_data z s fd reads ≡ some handed_over)
          × (call z decode draw c service_name method_name (first ∷ more) answers
              ≡ some (
                record c {
                  connection = some (record k1 { read_buffer = rest });
                  sequence_id = (c.sequence_id + 1) % 2 ^ 32;
                },
                of_option (decode result),
              ))
  unfolding extract_frame
  call_served draw draw' c k k1 service_name method_name more first answers w v services s s' fd
        conn kc kc' reads unread ws result rest ss rs left rounds on there valid written sent within
        known object reading arrived taken service method handled fits answered sent' within' listed
        reading' arrived' =
      let request =
        request_for ((c.sequence_id + 1) % 2 ^ 32) service_name method_name (first ∷ more) in
      let handed_over =
        handed (record s { objects = set s.objects conn (record kc' { read_buffer = [] }) }) conn
          request true in
      let (success, same) =
        (respond-Answer services request).answered result service method handled in
      (
        handle_client_data-front z laws s fd conn kc kc' reads unread ((request, w.sent) ∷ []) []
              known object reading
              (request-Sent z draw k request answers.writes w valid written sent within, tt)
              ((true, taken), tt) (arrived ∙ sym (append-nil (w.sent ++ []) ∙ append-nil w.sent))
              refl
            ∙ ap
                (λ (o : Option Bool). some (record handed_over {
                  tasks = s.tasks ++ (if is_taken o then (conn, request) ∷ [] else []);
                }))
                taken,
        call_answered z laws decode draw c k k1 service_name method_name more first answers w ss rs
              left rounds (respond services request) v.sent rest on there written sent listed
              reading'
              (task-Replied z draw' services handed_over s' conn request ws v fits answered sent'
                within')
              arrived' success
            ∙ ap
                (λ (back : Bytes). some (
                  record c {
                    connection = some (record k1 { read_buffer = rest });
                    sequence_id = (c.sequence_id + 1) % 2 ^ 32;
                  },
                  of_option (decode back),
                ))
                same,
      )
