-- ===== src/Vps/Histories.antt =====
-- Histories of all that changes servers and nodes: the commands on servers, new orders, and the
-- provisioning worker, in any order, each run to its end before the next.
pub mod Reserving
pub mod Working
pub mod Ended
use cloudmini_reseller.Common.{ℕ, List, [], ◌∷◌}
use cloudmini_reseller.Common.Int.{ℤ}
use cloudmini_reseller.Vps.World.{Env, World}
use cloudmini_reseller.Vps.Provision.{OrderRequest, create_vps, run_provision_worker}
use cloudmini_reseller.Vps.Instances.History.{Command, run}

-- An order carries the setting of the service that vmids start from.
pub data Event : Type 0 where
  commands : Command → Event
  orders : ℤ → OrderRequest → Event
  provisions : ℕ → Event

unfoldable pub happen : Event → Env → World → World
happen (commands c) env w = run c env w
happen (orders vmid_start req) env w = (create_vps vmid_start req env w).1
happen (provisions id) env w = (run_provision_worker id env w).1

unfoldable pub happen_all : List (Event × Env) → World → World
happen_all [] w = w
happen_all ((e, env) ∷ es) w = happen_all es (happen e env w)
