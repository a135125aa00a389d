-- ===== src/Vps/Entity.antt =====
-- The rows of the vps schema, services/vps-service/internal/domain/entity.go.
--
-- A decimal is an integer in millionths, a UUID a number, a time a number of seconds. Fields
-- that no operation of the model reads are left out.
use cloudmini_reseller.Common.{ℕ, String, Bool, Option}
use cloudmini_reseller.Common.Int.{ℤ, ◌-ℤ◌}

-- `stopped` is a literal of usecase/instance_usecase.go.
pub data InstanceStatus : Type 0 where
  pending provisioning booting running suspended stopped terminated failed : InstanceStatus

pub record Plan : Type 0 where
  pub id : ℕ
  pub cpu : ℤ
  pub ram_mb : ℤ
  pub disk_gb : ℤ
  pub hourly_rate : ℤ
  pub is_active : Bool

pub record Node : Type 0 where
  pub id : ℕ
  pub total_ram_mb : ℤ
  pub total_disk_gb : ℤ
  pub reserved_cpu : ℤ
  pub reserved_ram_mb : ℤ
  pub reserved_disk_gb : ℤ
  pub is_online : Bool

unfoldable pub available_ram_mb : Node → ℤ
available_ram_mb n = n.total_ram_mb -ℤ n.reserved_ram_mb

pub record Instance : Type 0 where
  pub id : ℕ
  pub user_id : ℕ
  pub plan_id : ℕ
  pub node_id : ℕ
  pub vmid : ℤ
  pub status : InstanceStatus
  pub ip_address : String
  pub root_password : String
  pub billing_started_at : Option ℤ
  pub last_billed_at : Option ℤ
  pub terminated_at : Option ℤ
  pub idempotency_key : String

-- `proxmox_name` is the number in the text snap-<number>, the seconds of the clock.
pub record Snapshot : Type 0 where
  pub id : ℕ
  pub instance_id : ℕ
  pub name : String
  pub proxmox_name : ℤ
  pub description : String
