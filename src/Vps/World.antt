-- ===== src/Vps/World.antt =====
-- What the use cases of vps-service run on: the tables, the requests to billing-service, and the
-- events that were published.
use cloudmini_reseller.Common.{◌≡◌, false, ℕ, suc, String, Bool, not, List, ◌∷◌, if◌then◌else◌}
use cloudmini_reseller.Common.Int.{ℤ}
use cloudmini_reseller.Common.Action.{Action as Act, ok, err}
use cloudmini_reseller.Proxy.World.{BillingOp, BillingCall}
use cloudmini_reseller.Vps.Entity.{InstanceStatus, Plan, Node, Instance, Snapshot}

-- A usage report. Its hours are the elapsed seconds over 3600, its amount is the rate times the
-- hours; both are kept as they are before the program makes floats and decimals of them.
pub record Usage : Type 0 where
  pub instance_id : ℕ
  pub seconds : ℤ
  pub rate : ℤ

-- What Proxmox is asked to do with a server or with a snapshot of it.
pub data Task : Type 0 where
  start_vm shutdown_vm reboot_vm suspend_vm resume_vm stop_vm delete_vm : Task
  make_snapshot drop_snapshot : ℤ → Task

pub record TaskCall : Type 0 where
  pub task : Task
  pub vmid : ℤ
  pub done : Bool

pub data Message : Type 0 where
  provision_requested vm_ready provision_failed : ℕ → Message
  state_changed : ℕ → InstanceStatus → InstanceStatus → Message
  suspended_for : ℕ → String → Message
  terminated_for : ℕ → ℕ → Message
  usage_report : Usage → Message

-- `fails n` says whether the n-th call to the outside fails: a statement to the database, a request
-- to billing-service or to Proxmox, an encryption. What billing-service refuses, such as a hold of 0
-- or of more than the balance covers, fails, too. `sort less` is sort.Slice, which the program
-- hands a comparison, `consoles` is where the console of a server is, `vmids` is what rand.Intn
-- adds, `ips` is what the guest agent answers to the n-th call, and `polls` is how often it is asked
-- before the deadline.
pub record Env : Type 0 where
  pub fails : ℕ → Bool
  pub sort : (Node → Node → Bool) → List Node → List Node
  pub vmids : ℕ → ℤ
  pub ips : ℕ → String
  pub polls : ℕ
  pub encrypt : ℕ → String
  pub uuids : ℕ → ℕ
  pub consoles : ℕ → String
  pub now : ℤ

pub record World : Type 0 where
  pub plans : List Plan
  pub nodes : List Node
  pub instances : List Instance
  pub snapshots : List Snapshot
  pub billing : List BillingCall
  pub messages : List Message
  pub tasks : List TaskCall
  pub calls : ℕ
  pub draws : ℕ

pub data Error : Type 0 where
  plan_not_found plan_not_active no_available_node instance_not_found : Error
  provision_timeout duplicate_key call_failed provision_failure : Error
  instance_not_owned instance_not_running instance_not_suspended : Error
  instance_terminated snapshot_not_found : Error
  node_not_found reserve_failed encrypt_failed create_failed hold_failed : Error

abbrev pub Action : Type 0 → Type 0
Action A = Act Env World Error A

-- One call to the outside.
abbrev pub call : Action (Unit {0})
call env w =
    (if env.fails w.calls then err call_failed else ok tt, record w { calls = suc w.calls })

abbrev pub new_uuid : Action ℕ
new_uuid env w = (ok (env.uuids w.draws), record w { draws = suc w.draws })

abbrev pub bill : BillingOp → ℕ → ℤ → ℕ → Action (Unit {0})
bill op user amount id env w = (
  if env.fails w.calls then err call_failed else ok tt,
  record w {
    calls = suc w.calls;
    billing =
        record { op = op; user = user; amount = amount; order = id; done = not (env.fails w.calls) }
        ∷ w.billing;
  },
)

abbrev pub publish : Message → Action (Unit {0})
publish m env w = (ok tt, record w { messages = m ∷ w.messages })

abbrev pub ask_proxmox : Task → ℤ → Action (Unit {0})
ask_proxmox task vmid env w = (
  if env.fails w.calls then err call_failed else ok tt,
  record w {
    calls = suc w.calls;
    tasks = record { task = task; vmid = vmid; done = not (env.fails w.calls) } ∷ w.tasks;
  },
)

-- No call fails.
abbrev pub IsReliable : Env → Type 0
IsReliable env = (n : ℕ) → env.fails n ≡ false
