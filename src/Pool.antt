-- ===== src/Pool.antt =====
-- The pool of Proxmox nodes, infrastructure/proxmox/pool/pool.go.
--
-- What a node's client answers is a parameter. The products of a plan with the bytes of a MB or GB
-- are integers without wrap-around, which int64 reaches only beyond 2^38 MB or 2^29 GB.
pub mod Best
mod Tests
use cloudmini_reseller.Common.{
  ℕ, ◌*◌, String, str_eq, Bool, true, false, ◌&&◌, Option, none, some, List, [], ◌∷◌, map,
  select_where, if◌then◌else◌,
}
use cloudmini_reseller.Common.Int.{ℤ, pos, ◌-ℤ◌, ◌*ℤ◌, leb_ℤ, ltb_ℤ}
use cloudmini_reseller.Vps.Provision.{with_headroom}

pub record NodeInfo : Type 0 where
  pub name : String
  pub status : String
  pub mem_bytes : ℤ
  pub max_mem : ℤ
  pub disk_bytes : ℤ
  pub max_disk : ℤ

pub record Candidate : Type 0 where
  pub name : String
  pub avail_ram : ℤ

-- `names` are the keys of the map of nodes in the order of one iteration, `node_info` is what the
-- client of a node answers, none for an error, and `sort less` is sort.Slice, which the program
-- hands a comparison.
pub record Env : Type 0 where
  pub names : List String
  pub node_info : String → Option NodeInfo
  pub sort : (Candidate → Candidate → Bool) → List Candidate → List Candidate

-- Nodes that cannot be reached are skipped.
unfoldable pub list_nodes : (String → Option NodeInfo) → List String → List NodeInfo
list_nodes node_info [] = []
list_nodes node_info (n ∷ ns) =
    let rest = list_nodes node_info ns in
    elim (node_info n) [ none ↦ rest | some info ↦ info ∷ rest ]

unfoldable pub avail_ram : NodeInfo → ℤ
avail_ram n = n.max_mem -ℤ n.mem_bytes

unfoldable pub avail_disk : NodeInfo → ℤ
avail_disk n = n.max_disk -ℤ n.disk_bytes

-- An online node with 20% more RAM and disk than the plan has.
unfoldable pub has_room : ℤ → ℤ → NodeInfo → Bool
has_room ram_mb disk_gb n =
    str_eq n.status "online"
    && (leb_ℤ (with_headroom (ram_mb *ℤ pos 1048576)) (avail_ram n)
        && leb_ℤ (with_headroom (disk_gb *ℤ pos 1073741824)) (avail_disk n))

abbrev pub to_candidate : NodeInfo → Candidate
to_candidate n = record { name = n.name; avail_ram = avail_ram n }

unfoldable pub candidates : Env → ℤ → ℤ → List Candidate
candidates env ram_mb disk_gb =
    map to_candidate (select_where (has_room ram_mb disk_gb) (list_nodes env.node_info env.names))

abbrev pub first_name : List Candidate → Option String
first_name [] = none
first_name (c ∷ cs) = some c.name

-- The comparison of SelectBestNode, of the candidates at two indices.
abbrev pub less : Candidate → Candidate → Bool
less a b = ltb_ℤ b.avail_ram a.avail_ram

-- `len(candidates) == 0` is looked at first.
abbrev pub sorted : Env → List Candidate → List Candidate
sorted env [] = []
sorted env (c ∷ cs) = env.sort less (c ∷ cs)

-- None is the error that no node has sufficient resources.
unfoldable pub select_best_node : Env → ℤ → ℤ → Option String
select_best_node env ram_mb disk_gb = first_name (sorted env (candidates env ram_mb disk_gb))
