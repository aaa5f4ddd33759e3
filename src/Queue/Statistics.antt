-- ===== src/Queue/Statistics.antt =====
-- queues.cpp, `updateMaxDepth`: its compare-exchange loop.
use laboratory.Base.{ℕ, suc, ◌≡◌, arith, List, ◌∷◌, Bool, true, false, some, ◌++◌, replicate}
use laboratory.Queue.{cas_max, update_max_depth}

-- However often the weak compare-exchange fails spuriously, the loop of `updateMaxDepth` ends as
-- soon as one attempt does not, with the larger of the old maximum and the new depth stored.
pub cas_max-update_max_depth :
    (failures : ℕ) (rest : List Bool) (memory depth : ℕ)
    → cas_max (replicate failures true ++ (false ∷ rest)) memory memory depth
      ≡ some (update_max_depth memory depth)
unfolding cas_max
cas_max-update_max_depth ℕ.zero rest memory depth = ground arith
cas_max-update_max_depth (suc n) rest memory depth =
    ground (arith, cas_max-update_max_depth n rest memory depth)
