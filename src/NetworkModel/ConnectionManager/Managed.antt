-- ===== src/NetworkModel/ConnectionManager/Managed.antt =====
-- The managers that a server can come to are well formed.
use unixtar.Prelude.{ℕ, Bool, ok, ◌≡◌}
use unixtar.NetworkModel.ConnectionManager.{
  ConnectionManager, new_manager, add_connection, del_connection, clear_timeout,
}

module _ {C : Type 0} where
  -- The managers that come of the constructor by adding and deleting connections, and by clearing
  -- those that have timed out.
  pub data Managed (grow : ℕ → ℕ → ℕ) : ConnectionManager C → Type 0 where
    created : Managed grow new_manager
    added :
        (conn : C) (m m' : ConnectionManager C)
        → Managed grow m
        → add_connection grow conn m ≡ ok m'
        → Managed grow m'
    deleted :
        (uid : ℕ) (m m' : ConnectionManager C)
        → Managed grow m
        → del_connection uid m ≡ ok m'
        → Managed grow m'
    cleared :
        (is_timeout : C → Bool) (m : ConnectionManager C)
        → Managed grow m
        → Managed grow (clear_timeout is_timeout m)
