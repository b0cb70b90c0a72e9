-- ===== src/Registry/Tests.antt =====
-- A registration against a tree in memory, and the events of a session.
use my_rpc_project_v.Base.{◌≡◌, refl, [], ◌∷◌, none, some, true, false, codes, bytes_eq}
use my_rpc_project_v.Zookeeper.{Node, connected, connecting}
use my_rpc_project_v.Registry.{
  Registry, session, other_event, create_registry, wait_connected, watch, global_watcher,
  split_last, parent_of, ensure_found, ensure_here, ensure_loop, ensure_path, create_node,
  register_service, registry_connected, has_handle,
}
use my_rpc_project_v.Registry.Memory.{memory, memory-IsLawful, memory-IsKept}
use my_rpc_project_v.Registry.Present.{Stored, register_service_builds}

abbrev online : Registry
online = record { zk_handle = some 7; is_connected = true }

abbrev persistent : Node
persistent = record { contents = []; ephemeral = false }

parents : parent_of (codes "/myrpc/echo") ≡ some (codes "/myrpc")
unfolding parent_of split_last
parents = refl

no_parent : parent_of (codes "/myrpc") ≡ none
unfolding parent_of split_last
no_parent = refl

registered :
    register_service memory online (codes "echo") (codes "h:80") []
    ≡ some (
      true,
      (codes "/myrpc/echo/h:80", record { contents = codes "h:80"; ephemeral = true })
          ∷ (codes "/myrpc/echo", persistent)
          ∷ (codes "/myrpc", persistent)
          ∷ [],
    )
unfolding register_service registry_connected has_handle ensure_path ensure_loop ensure_here
    ensure_found create_node parent_of split_last bytes_eq
registered = refl

-- The connection comes in the third round of waiting, behind another event.
late_session :
    create_registry
      (some 7)
      []
      ([] ∷ (other_event ∷ session connecting ∷ []) ∷ (session connected ∷ []) ∷ [])
    ≡ some online
unfolding create_registry wait_connected watch global_watcher
late_session = refl

register_service_builds_example : Stored memory online (codes "echo") (codes "h:80") []
register_service_builds_example =
    register_service_builds memory memory-IsLawful memory-IsKept online (codes "echo")
      (codes "h:80") []
