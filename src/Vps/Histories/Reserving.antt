-- ===== src/Vps/Histories/Reserving.antt =====
-- What an order and a provisioning do to the reservations of the nodes.
use cloudmini_reseller.Common.{ℕ, ◌≡◌, List, [], ◌∷◌, arith, update_where}
use cloudmini_reseller.Common.Int.{ℤ, pos, ◌≤ℤ◌, ◌+ℤ◌, +ℤ_parts, -ℤ_parts}
use cloudmini_reseller.Vps.Entity.{Plan, Node}
use cloudmini_reseller.Vps.World.{Env, World}
use cloudmini_reseller.Vps.Repo.{
  is_node, reserved, released, reserve_resources, release_resources, instance_create, update_status,
}
use cloudmini_reseller.Vps.Provision.{OrderRequest, reserve_on}

-- The nodes are those of before, in their order, and none has less reserved.
abbrev pub KeepsReserved : List Node → List Node → Type 0
KeepsReserved [] [] = Unit
KeepsReserved (m ∷ ms) (n ∷ ns) =
    (n.id ≡ m.id)
    × (m.reserved_cpu ≤ℤ n.reserved_cpu)
    × (m.reserved_ram_mb ≤ℤ n.reserved_ram_mb)
    × (m.reserved_disk_gb ≤ℤ n.reserved_disk_gb)
    × KeepsReserved ms ns
KeepsReserved _ _ = ⊥

pub KeepsReserved-refl : (ns : List Node) → KeepsReserved ns ns
KeepsReserved-refl [] = tt
KeepsReserved-refl (n ∷ ns) = ground (arith, KeepsReserved-refl ns)

-- A plan asks for no negative amount.
abbrev pub IsSized : Plan → Type 0
IsSized p = (pos 0 ≤ℤ p.cpu) × (pos 0 ≤ℤ p.ram_mb) × (pos 0 ≤ℤ p.disk_gb)

module _ (id : ℕ) (cpu ram disk : ℤ) where
  KeepsReserved-reserved :
      (ms ns : List Node)
      → pos 0 ≤ℤ cpu
      → pos 0 ≤ℤ ram
      → pos 0 ≤ℤ disk
      → KeepsReserved ms ns
      → KeepsReserved ms (update_where (is_node id) (reserved cpu ram disk) ns)
  KeepsReserved-reserved [] [] c r d k = tt
  KeepsReserved-reserved [] (n ∷ ns) c r d k = k
  KeepsReserved-reserved (m ∷ ms) [] c r d k = k
  KeepsReserved-reserved (m ∷ ms) (n ∷ ns) c r d k = ground (
    arith,
    +ℤ_parts n.reserved_cpu cpu,
    +ℤ_parts n.reserved_ram_mb ram,
    +ℤ_parts n.reserved_disk_gb disk,
    KeepsReserved-reserved ms ns c r d k.4,
  )

  -- What was reserved is given back, and no more.
  KeepsReserved-back :
      (ms ns : List Node)
      → KeepsReserved ms ns
      → KeepsReserved ms (
          update_where
            (is_node id)
            (released cpu ram disk)
            (update_where (is_node id) (reserved cpu ram disk) ns))
  KeepsReserved-back [] [] k = tt
  KeepsReserved-back [] (n ∷ ns) k = k
  KeepsReserved-back (m ∷ ms) [] k = k
  KeepsReserved-back (m ∷ ms) (n ∷ ns) k = ground (
    arith,
    +ℤ_parts n.reserved_cpu cpu,
    +ℤ_parts n.reserved_ram_mb ram,
    +ℤ_parts n.reserved_disk_gb disk,
    -ℤ_parts (n.reserved_cpu +ℤ cpu) cpu,
    -ℤ_parts (n.reserved_ram_mb +ℤ ram) ram,
    -ℤ_parts (n.reserved_disk_gb +ℤ disk) disk,
    KeepsReserved-back ms ns k.4,
  )

-- fail gives back amounts of 0.
pub KeepsReserved-released_0 :
    (id : ℕ) (ms ns : List Node)
    → KeepsReserved ms ns
    → KeepsReserved ms (update_where (is_node id) (released (pos 0) (pos 0) (pos 0)) ns)
KeepsReserved-released_0 id [] [] k = tt
KeepsReserved-released_0 id [] (n ∷ ns) k = k
KeepsReserved-released_0 id (m ∷ ms) [] k = k
KeepsReserved-released_0 id (m ∷ ms) (n ∷ ns) k = ground (
  arith,
  -ℤ_parts n.reserved_cpu (pos 0),
  -ℤ_parts n.reserved_ram_mb (pos 0),
  -ℤ_parts n.reserved_disk_gb (pos 0),
  KeepsReserved-released_0 id ms ns k.4,
)

pub reserve_on-KeepsReserved :
    (vmid : ℤ) (req : OrderRequest) (plan : Plan) (node : ℕ) (env : Env) (w : World)
    (ms : List Node)
    → IsSized plan
    → KeepsReserved ms w.nodes
    → KeepsReserved ms (reserve_on vmid req plan node env w).1.nodes
unfolding reserve_on reserve_resources release_resources instance_create update_status
reserve_on-KeepsReserved vmid req plan node env w ms sized kept =
    let up =
      KeepsReserved-reserved node plan.cpu plan.ram_mb plan.disk_gb ms w.nodes sized.0 sized.1
        sized.2 kept in
    let back = KeepsReserved-back node plan.cpu plan.ram_mb plan.disk_gb ms w.nodes kept in
    ground (arith, up, back)
