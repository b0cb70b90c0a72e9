-- ===== src/Startup/NewClient.antt =====
-- The constructor of rpc_src/core/rpc_client.
use my_rpc_project_v.Base.{
  ℕ, List, [], Option, none, some, Bool, true, false, Bytes, if◌then◌else◌, ℤ, pos, negsuc,
}
use my_rpc_project_v.Config.{Json, returned as loaded, threw as load_threw}
use my_rpc_project_v.Config.RpcClient.{ClientConfig, init_rpc_client_config}
use my_rpc_project_v.Discovery.{Handler, Answers, init_zk_conn_handler}
use my_rpc_project_v.Client.{Client, Attempt, Ended, returned, threw, connect}

-- The loop of Connect runs while a counter from 0 on is below retry_times_.
abbrev rounds_of : ℤ → ℕ
rounds_of (pos n) = n
rounds_of (negsuc n) = 0

-- The members before Connect.
unfoldable pub fresh_client : ClientConfig → Client
fresh_client config = record {
  server_ip = [];
  server_port = pos 0;
  retry_times = rounds_of config.retry_times;
  connection = none;
  sequence_id = 0;
  is_connected = false;
}

-- How the constructor ends.
pub data Made : Type 0 where
  thrown : Made
  made : Client → Made

unfoldable pub made_of : Client × Ended → Made
made_of (c, returned true) = made c
made_of (c, returned false) = thrown
made_of (c, threw) = thrown

abbrev client_or : Client → Made → Client
client_or c thrown = c
client_or c (made c') = c'

abbrev is_made : Made → Bool
is_made thrown = false
is_made (made c) = true

-- `zk_config` is the document with the client's host, port and namespace; `none` is a round that is
-- given no answer.
module _ (j : Json) (zk_config : ClientConfig → j.Value) where
  unfoldable pub connect_client :
      Answers → List Attempt → ClientConfig → Handler → Option (Handler × Made)
  unfolding init_zk_conn_handler fresh_client connect made_of
  connect_client a attempts config h =
      let ready = init_zk_conn_handler j (zk_config config) a h in
      if ready.1
      then elim (connect attempts (fresh_client config)) [
        | none ↦ none
        | some ended ↦ some (ready.0, made_of ended)
      ]
      else some (ready.0, thrown)

  unfoldable pub new_client :
      Option Bytes
      → ClientConfig
      → Answers
      → List Attempt
      → Handler
      → Option (ClientConfig × Handler × Made)
  unfolding init_rpc_client_config connect_client
  new_client file config a attempts h =
      let read = init_rpc_client_config j file config in
      elim read.1 [
        | load_threw ↦ some (read.0, h, thrown)
        | loaded good ↦
            if good
            then elim (connect_client a attempts read.0 h) [
              | none ↦ none
              | some (h', m) ↦ some (read.0, h', m)
            ]
            else some (read.0, h, thrown)
      ]
