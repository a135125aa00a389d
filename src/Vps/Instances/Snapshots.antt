-- ===== src/Vps/Instances/Snapshots.antt =====
-- Whose snapshots a user can delete.
use cloudmini_reseller.Common.{
  ℕ, suc, ◌≡◌, refl, false, true, not, some, List, [], ◌∷◌, arith, any, find_where, select_where,
}
use cloudmini_reseller.Common.Action.{ok}
use cloudmini_reseller.Vps.Entity.{Instance, Snapshot}
use cloudmini_reseller.Vps.World.{Env, World, IsReliable, drop_snapshot}
use cloudmini_reseller.Vps.Repo.{
  is_present, is_snapshot, instance_get_by_id, snapshot_get_by_id, snapshot_delete,
}
use cloudmini_reseller.Vps.Instances.{get_owned, delete_snapshot}

none_left :
    (id : ℕ) (ss : List Snapshot)
    → any (is_snapshot id) (select_where (λ s. not (is_snapshot id s)) ss) ≡ false
none_left id [] = refl
none_left id (s ∷ ss) = ground (arith, none_left id ss)

-- Whoever has one server can delete every snapshot: while nothing fails, DeleteSnapshot on a
-- server of the user removes the row of any snapshot, whichever server it was made of, and asks
-- Proxmox to delete a snapshot of that name from the user's own server.
delete_snapshot-any :
    (inst snap : ℕ) (env : Env) (w : World) (i : Instance) (s : Snapshot)
    → IsReliable env
    → find_where (is_present inst) w.instances ≡ some i
    → find_where (is_snapshot snap) w.snapshots ≡ some s
    → let (r, w') = delete_snapshot inst snap i.user_id env w in
      (r ≡ ok tt)
      × (any (is_snapshot snap) w'.snapshots ≡ false)
      × (w'.tasks
          ≡ record { task = drop_snapshot s.proxmox_name; vmid = i.vmid; done = true } ∷ w.tasks)
unfolding delete_snapshot get_owned instance_get_by_id snapshot_get_by_id snapshot_delete
delete_snapshot-any inst snap env w i s up found stored =
    let n = w.calls in
    ground (
      arith,
      up n,
      up (suc n),
      up (suc (suc n)),
      up (suc (suc (suc n))),
      up (suc (suc (suc (suc n)))),
      none_left snap w.snapshots,
    )
