-- ===== src/Vps/Tests.antt =====
-- Runs and witnesses of vps-service.
use cloudmini_reseller.Common.{
  ◌+◌, ◌==◌, ◌≡◌, refl, true, false, none, some, List, [], ◌∷◌, arith, select_where,
}
use cloudmini_reseller.Common.Int.{pos, ◌+ℤ◌}
use cloudmini_reseller.Vps.Entity.{Plan, Node, Instance, pending, running, terminated}
use cloudmini_reseller.Vps.World.{Env, World}
use cloudmini_reseller.Vps.Repo.{is_instance}
use cloudmini_reseller.Vps.Provision.{OrderRequest, create_vps, run_provision_worker}
use cloudmini_reseller.Vps.Provision.Leaks.{Leaks, run_provision_worker-Leaks}
use cloudmini_reseller.Vps.Provision.Placement.{Placed, create_vps-Placed}
use cloudmini_reseller.Vps.Instances.Metering.{IsMetered}
use cloudmini_reseller.Vps.Instances.History.{
  Command, starts, meters, suspends, resumes, run_all, run_all-IsMetered,
}
use cloudmini_reseller.Vps.Histories.{Event, commands, orders, provisions, happen_all}
use cloudmini_reseller.Vps.Histories.Reserving.{KeepsReserved}
use cloudmini_reseller.Vps.Histories.Ended.{Draws, happen_all-Ended}

-- The fifth call, the end of the task that creates the server, fails.
abbrev pub fifth_fails : Env
fifth_fails = record {
  fails = λ n. n == 4;
  sort = λ less ns. ns;
  vmids = λ n. pos 0;
  ips = λ n. "10.0.0.1";
  polls = 18;
  encrypt = λ n. "sealed";
  uuids = λ n. n;
  consoles = λ n. "";
  now = pos 0;
}

abbrev small : Plan
small = record {
  id = 1;
  cpu = pos 1;
  ram_mb = pos 1024;
  disk_gb = pos 20;
  hourly_rate = pos 100;
  is_active = true;
}

abbrev busy : Node
busy = record {
  id = 2;
  total_ram_mb = pos 4096;
  total_disk_gb = pos 100;
  reserved_cpu = pos 1;
  reserved_ram_mb = pos 1024;
  reserved_disk_gb = pos 20;
  is_online = true;
}

abbrev pub ordered : Instance
ordered = record {
  id = 3;
  user_id = 7;
  plan_id = 1;
  node_id = 2;
  vmid = pos 100;
  status = pending;
  ip_address = "";
  root_password = "sealed";
  billing_started_at = none;
  last_billed_at = none;
  terminated_at = none;
  idempotency_key = "";
}

abbrev pub world : World
world = record {
  plans = small ∷ [];
  nodes = busy ∷ [];
  instances = ordered ∷ [];
  snapshots = [];
  billing = [];
  messages = [];
  tasks = [];
  calls = 0;
  draws = 0;
}

run_provision_worker-Leaks_example :
    let (r, w') = run_provision_worker 3 fifth_fails world in Leaks world r w'
run_provision_worker-Leaks_example =
    run_provision_worker-Leaks 3 fifth_fails world ((omega arith, omega arith, omega arith), tt)

abbrev order : OrderRequest
order = record { user_id = 7; plan_id = 1; idempotency_key = "k" }

-- The hold of the first hour fails.
create_vps-Placed_example :
    let (r, w') = create_vps (pos 100) order fifth_fails world in Placed order world r w'
create_vps-Placed_example =
    create_vps-Placed (pos 100) order fifth_fails world (λ m n e f. ground arith) (λ p ns. refl)
      refl ((omega arith, omega arith, omega arith), tt)

abbrev gone : Instance
gone = record ordered { status = terminated; terminated_at = some (pos 9) }

abbrev ended_world : World
ended_world = record world { instances = gone ∷ [] }

abbrev drawing : Env
drawing = record fifth_fails { uuids = λ n. n + 100 }

abbrev later : List (Event × Env)
later =
    (orders (pos 100) order, drawing)
    ∷ (provisions 3, drawing)
    ∷ (provisions 100, drawing)
    ∷ (commands (starts 3 7), drawing)
    ∷ (commands meters, drawing)
    ∷ []

drawing-Draws : Draws 3 drawing
drawing-Draws n e = omega arith

happen_all-Ended_example :
    (select_where (is_instance 3) (happen_all later ended_world).instances ≡ gone ∷ [])
    × KeepsReserved (busy ∷ []) (happen_all later ended_world).nodes
happen_all-Ended_example =
    happen_all-Ended 3 later ended_world (refl, tt) ((omega arith, omega arith, omega arith), tt)
      (drawing-Draws, (drawing-Draws, (drawing-Draws, (drawing-Draws, (drawing-Draws, tt)))))

abbrev on_time : Env
on_time = record fifth_fails { fails = λ n. false; now = pos 7200 }

abbrev in_use : Instance
in_use = record ordered { status = running; last_billed_at = some (pos 3600) }

abbrev running_world : World
running_world = record world { instances = in_use ∷ [] }

abbrev a_day : List (Command × Env)
a_day = (suspends 3 "wallet_empty", on_time) ∷ (resumes 3 7, on_time) ∷ (meters, on_time) ∷ []

run_all-IsMetered_example : IsMetered 3 (pos 3600) (run_all a_day running_world)
unfolding ◌+ℤ◌
run_all-IsMetered_example =
    run_all-IsMetered 3 (pos 3600) a_day running_world
      ((λ n. refl), ((λ n. refl), ((λ n. refl), tt))) (omega arith, refl)
