-- ===== src/Pool/Best.antt =====
-- SelectBestNode against a description of the best node.
use cloudmini_reseller.Common.{
  ℕ, ◌*◌, ◌+◌, ◌<◌, String, Bool, true, false, ◌≡◌, ◌⊎◌, Option, none, some, List, [], ◌∷◌, All,
  map, any, select_where,
}
use cloudmini_reseller.Common.Int.{ℤ, pos, pos_part, neg_part, ◌-ℤ◌, ltb_ℤ}
use cloudmini_reseller.Pool.{NodeInfo, Candidate, Env, has_room, to_candidate}

-- An amount that is free covers what is asked for and 20% more, of which a fraction is dropped.
abbrev pub Covers : ℤ → ℕ → Type 0
Covers free asked = 12 * asked + 10 * neg_part free < 10 * pos_part free + 10

-- A node that can take a server of so many MB of RAM and GB of disk.
abbrev pub HasRoom : ℕ → ℕ → NodeInfo → Type 0
HasRoom ram_mb disk_gb n =
    (n.status ≡ "online")
    × Covers (n.max_mem -ℤ n.mem_bytes) (ram_mb * 1048576)
    × Covers (n.max_disk -ℤ n.disk_bytes) (disk_gb * 1073741824)

-- One of a list.
abbrev pub Among : NodeInfo → List NodeInfo → Type 0
Among n [] = ⊥
Among n (m ∷ ns) = (n ≡ m) ⊎ Among n ns

-- No node has room; or a node of that name has room, and none that has room has more RAM available.
abbrev pub IsBest : ℕ → ℕ → List NodeInfo → Option String → Type 0
IsBest ram_mb disk_gb ns none = All (λ n. ¬ HasRoom ram_mb disk_gb n) ns
IsBest ram_mb disk_gb ns (some name) =
    (n : NodeInfo) × (Among n ns
      × (n.name ≡ name)
      × HasRoom ram_mb disk_gb n
      × All
          (λ m. ¬ (
            HasRoom ram_mb disk_gb m
            × (ltb_ℤ (n.max_mem -ℤ n.mem_bytes) (m.max_mem -ℤ m.mem_bytes) ≡ true)))
          ns)

-- What is asked of a comparison by sort.Slice.
pub record IsStrictWeak (lt : Candidate → Candidate → Bool) : Type 0 where
  pub irreflexive : (a : Candidate) → lt a a ≡ false
  pub transitive : (a b c : Candidate) → lt a b ≡ true → lt b c ≡ true → lt a c ≡ true
  pub incomparable : (a b c : Candidate) → lt a b ≡ false → lt b c ≡ false → lt a c ≡ false

-- No later entry is less than an earlier one.
abbrev pub IsOrdered : (Candidate → Candidate → Bool) → List Candidate → Type 0
IsOrdered lt [] = Unit
IsOrdered lt (c ∷ cs) = All (λ d. lt d c ≡ false) cs × IsOrdered lt cs

-- What sort.Slice promises: by any such comparison the entries are put in order, and none is added
-- or lost.
pub record Sorts (env : Env) : Type 0 where
  pub ordered :
      (lt : Candidate → Candidate → Bool) (cs : List Candidate)
      → IsStrictWeak lt
      → IsOrdered lt (env.sort lt cs)
  pub same :
      (lt : Candidate → Candidate → Bool) (cs : List Candidate)
      → IsStrictWeak lt
      → (p : Candidate → Bool) → any p (env.sort lt cs) ≡ any p cs

module _ (ram_mb disk_gb : ℕ) (ns : List NodeInfo) where
  abbrev room : NodeInfo → Bool
  room = has_room (pos ram_mb) (pos disk_gb)

  abbrev cands : List Candidate
  cands = map to_candidate (select_where room ns)
