-- ===== src/Config/RpcClient.antt =====
-- rpc_src/load_config/rpc_client_config: the configuration of the client.
use my_rpc_project_v.Base.{Option, none, some, true, false, Bytes, codes, ℤ, pos, to_int}
use my_rpc_project_v.Config.{Json, Loaded, returned, threw}

pub record ClientConfig : Type 0 where
  pub zk_namespace : Bytes
  pub zk_host : Bytes
  pub zk_port : ℤ
  pub timeout_ms : ℤ
  pub retry_times : ℤ
  pub server_port : ℤ

module _ (j : Json) where
  open j use {Value, parse, text_value, number_value}

  -- One value and its setter; what was set before an exception stays.
  abbrev set_text :
      Value
      → Bytes
      → Bytes
      → (Bytes → ClientConfig → ClientConfig)
      → ClientConfig × Loaded
      → ClientConfig × Loaded
  set_text config key otherwise set (c, threw) = (c, threw)
  set_text config key otherwise set (c, returned b) = elim (text_value config key otherwise) [
    | none ↦ (c, threw)
    | some v ↦ (set v c, returned b)
  ]

  abbrev set_number :
      Value
      → Bytes
      → ℤ
      → (ℤ → ClientConfig → ClientConfig)
      → ClientConfig × Loaded
      → ClientConfig × Loaded
  set_number config key otherwise set (c, threw) = (c, threw)
  set_number config key otherwise set (c, returned b) = elim (number_value config key otherwise) [
    | none ↦ (c, threw)
    | some v ↦ (set (to_int v) c, returned b)
  ]

  unfoldable pub read_client_config : Value → ClientConfig → ClientConfig × Loaded
  read_client_config config c =
      set_number config (codes "server_port") (pos 8989) (λ v k. record k { server_port = v })
        (set_number config (codes "retry_times") (pos 3) (λ v k. record k { retry_times = v })
          (set_number config (codes "timeout_ms") (pos 3000) (λ v k. record k { timeout_ms = v })
            (set_number config (codes "zk_port") (pos 2181) (λ v k. record k { zk_port = v })
              (set_text config (codes "zk_host") (codes "localhost")
                (λ v k. record k { zk_host = v })
                (set_text config (codes "zk_namespace") (codes "myrpc")
                  (λ v k. record k { zk_namespace = v }) (c, returned true))))))

  unfoldable pub init_rpc_client_config : Option Bytes → ClientConfig → ClientConfig × Loaded
  unfolding read_client_config
  init_rpc_client_config none c = (c, returned false)
  init_rpc_client_config (some file) c = elim (parse file) [
    | none ↦ (c, threw)
    | some config ↦ read_client_config config c
  ]
