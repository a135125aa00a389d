-- ===== src/Vps/Instances/History.antt =====
-- Histories of commands on servers: what users, administrators, the meter and an empty wallet do, in
-- any order.
use cloudmini_reseller.Common.{ℕ, String, List, [], ◌∷◌, All, select_where}
use cloudmini_reseller.Common.Int.{ℤ}
use cloudmini_reseller.Vps.World.{Env, World, IsReliable}
use cloudmini_reseller.Vps.Repo.{is_instance}
use cloudmini_reseller.Vps.Instances.{
  start_instance, stop_instance, reboot_instance, suspend_instance, resume_instance,
  terminate_instance, create_snapshot, delete_snapshot, run_hourly_meter, handle_wallet_empty,
}
use cloudmini_reseller.Vps.Instances.Rows.{IsEnded, HasRows}
use cloudmini_reseller.Vps.Instances.Ended.{
  start_instance-HasRows, stop_instance-HasRows, reboot_instance-HasRows, suspend_instance-HasRows,
  resume_instance-HasRows, terminate_instance-HasRows, create_snapshot-HasRows,
  delete_snapshot-HasRows, run_hourly_meter-HasRows, handle_wallet_empty-HasRows,
}
use cloudmini_reseller.Vps.Instances.Metering.{
  IsMetered, Metered, start_instance-Metered, stop_instance-Metered, reboot_instance-Metered,
  suspend_instance-Metered, resume_instance-Metered, terminate_instance-Metered,
  create_snapshot-Metered, delete_snapshot-Metered, handle_wallet_empty-Metered,
}
use cloudmini_reseller.Vps.Instances.Charging.{run_hourly_meter-Metered}

pub data Command : Type 0 where
  starts stops reboots resumes terminates : ℕ → ℕ → Command
  suspends : ℕ → String → Command
  snapshots : ℕ → ℕ → String → String → Command
  drops : ℕ → ℕ → ℕ → Command
  meters : Command
  empties : ℕ → Command

unfoldable pub run : Command → Env → World → World
run (starts id user) env w = (start_instance id user env w).1
run (stops id user) env w = (stop_instance id user env w).1
run (reboots id user) env w = (reboot_instance id user env w).1
run (resumes id user) env w = (resume_instance id user env w).1
run (terminates id user) env w = (terminate_instance id user env w).1
run (suspends id reason) env w = (suspend_instance id reason env w).1
run (snapshots id user name desc) env w = (create_snapshot id user name desc env w).1
run (drops id snap user) env w = (delete_snapshot id snap user env w).1
run meters env w = (run_hourly_meter env w).1
run (empties user) env w = (handle_wallet_empty user env w).1

-- Each command has its own environment: what fails and what time it is differs.
unfoldable pub run_all : List (Command × Env) → World → World
run_all [] w = w
run_all ((c, env) ∷ cs) w = run_all cs (run c env w)

module _ (id : ℕ) (w₀ : World)
    (ended : All IsEnded (select_where (is_instance id) w₀.instances)) where
  -- The rows of the server, the nodes and the plans are those of w₀.
  abbrev pub Stays : World → Type 0
  Stays = HasRows id (select_where (is_instance id) w₀.instances) (w₀.nodes, w₀.plans)

  pub run-Stays : (c : Command) (env : Env) (w : World) → Stays w → Stays (run c env w)
  unfolding run
  run-Stays (starts k user) env w p = (start_instance-HasRows id _ _ ended k user).at env w p
  run-Stays (stops k user) env w p = (stop_instance-HasRows id _ _ ended k user).at env w p
  run-Stays (reboots k user) env w p = (reboot_instance-HasRows id _ _ ended k user).at env w p
  run-Stays (resumes k user) env w p = (resume_instance-HasRows id _ _ ended k user).at env w p
  run-Stays (terminates k user) env w p =
      (terminate_instance-HasRows id _ _ ended k user).at env w p
  run-Stays (suspends k reason) env w p =
      (suspend_instance-HasRows id _ _ ended k reason).at env w p
  run-Stays (snapshots k user name desc) env w p =
      (create_snapshot-HasRows id _ _ ended k user name desc).at env w p
  run-Stays (drops k snap user) env w p =
      (delete_snapshot-HasRows id _ _ ended k snap user).at env w p
  run-Stays meters env w p = (run_hourly_meter-HasRows id _ _ ended).at env w p
  run-Stays (empties user) env w p = (handle_wallet_empty-HasRows id _ _ ended user).at env w p

module _ (id : ℕ) (start : ℤ) where
  run-Metered :
      (c : Command) (env : Env) (w : World)
      → IsReliable env
      → Metered id start w
      → Metered id start (run c env w)
  unfolding run
  run-Metered (starts k user) env w up p = (start_instance-Metered id start k user).at env w p
  run-Metered (stops k user) env w up p = (stop_instance-Metered id start k user).at env w p
  run-Metered (reboots k user) env w up p = (reboot_instance-Metered id start k user).at env w p
  run-Metered (resumes k user) env w up p = (resume_instance-Metered id start k user).at env w p
  run-Metered (terminates k user) env w up p =
      (terminate_instance-Metered id start k user).at env w p
  run-Metered (suspends k reason) env w up p =
      (suspend_instance-Metered id start k reason).at env w p
  run-Metered (snapshots k user name desc) env w up p =
      (create_snapshot-Metered id start k user name desc).at env w p
  run-Metered (drops k snap user) env w up p =
      (delete_snapshot-Metered id start k snap user).at env w p
  run-Metered meters env w up p = run_hourly_meter-Metered id start env w up p
  run-Metered (empties user) env w up p = (handle_wallet_empty-Metered id start user).at env w p

  -- The meter reports each second once, those of suspensions too: if a server has at most one row,
  -- and its last billing is as many seconds after `start` as were reported of it, this stays so
  -- through every history of commands in which no call fails.
  pub run_all-IsMetered :
      (cs : List (Command × Env)) (w : World)
      → All (λ c. IsReliable c.1) cs
      → IsMetered id start w
      → IsMetered id start (run_all cs w)
  unfolding run_all
  run_all-IsMetered [] w up p = p
  run_all-IsMetered ((c, env) ∷ cs) w up p =
      run_all-IsMetered cs (run c env w) up.1 (run-Metered c env w up.0 p)
