-- ===== src/Pool/Tests.antt =====
-- Runs and witnesses of the pool.
use cloudmini_reseller.Common.{
  String, str_eq, Bool, ◌≡◌, refl, none, some, List, [], ◌∷◌, if◌then◌else◌,
}
use cloudmini_reseller.Common.Int.{pos, ◌-ℤ◌, ◌*ℤ◌}
use cloudmini_reseller.Vps.Provision.{with_headroom}
use cloudmini_reseller.Pool.{
  NodeInfo, Candidate, Env, list_nodes, avail_ram, avail_disk, has_room, candidates,
  select_best_node,
}

-- A sort of its own.
insert_by : (Candidate → Candidate → Bool) → Candidate → List Candidate → List Candidate
insert_by lt c [] = c ∷ []
insert_by lt c (d ∷ ds) = let rest = insert_by lt c ds in if lt d c then d ∷ rest else c ∷ d ∷ ds

insertion_sort : (Candidate → Candidate → Bool) → List Candidate → List Candidate
unfolding insert_by
insertion_sort lt [] = []
insertion_sort lt (c ∷ cs) = insert_by lt c (insertion_sort lt cs)

abbrev node_with : String → NodeInfo
node_with name = record {
  name = name;
  status = "online";
  mem_bytes = pos 0;
  max_mem = pos 8589934592;
  disk_bytes = pos 0;
  max_disk = pos 107374182400;
}

-- Of two nodes one is busier; the third cannot be reached.
abbrev busy : NodeInfo
busy = record (node_with "pve2") { mem_bytes = pos 4294967296 }

abbrev env : Env
env = record {
  names = "pve1" ∷ "pve2" ∷ "pve3" ∷ [];
  node_info = λ name.
      if str_eq name "pve1"
      then some (node_with "pve1")
      else if str_eq name "pve2"
      then some busy
      else none;
  sort = insertion_sort;
}

chosen : select_best_node env (pos 1024) (pos 20) ≡ some "pve1"
unfolding insertion_sort select_best_node candidates list_nodes has_room avail_ram avail_disk
    with_headroom ◌-ℤ◌ ◌*ℤ◌
chosen = refl
