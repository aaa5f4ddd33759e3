-- ===== src/Index/BPlusTree/Subtree.antt =====
-- A subtree of the B+ tree in the file.
use laboratory.Base.{occurs, ℕ, zero, suc, ◌<◌, ◌≡◌, ap, arith, List, [], ◌∷◌}
use laboratory.Index.{Entry}
use laboratory.Index.Order.{Asc}
use laboratory.Index.Stream.{Stream}
use laboratory.Index.BPlusTree.Nodes.{Node, leaf, internal, At}
use laboratory.Index.BPlusTree.Kids.{Child, Kids, Kids-Asc, Kids-map, Within}

-- What stands at a block is a subtree with this many levels of internal nodes, whose keys are from
-- `lo` on and below `hi`, which holds `es`, uses the blocks `ids`, begins with the leaf `first`, and
-- whose last leaf leads to `next`.
abbrev pub Subtree : ℕ → ℕ → Stream → ℕ → Child
Subtree block_size capacity s zero id lo hi es ids first next =
    At block_size capacity s id (leaf es next)
    × Asc lo es hi
    × (lo < hi)
    × (ids ≡ id ∷ [])
    × (first ≡ id)
Subtree block_size capacity s (suc d) id lo hi es ids first next =
    (c : ℕ) × (seps : List Entry) × (below : List ℕ) × At block_size capacity s id (internal c seps)
    × Kids (Subtree block_size capacity s d) c lo seps hi es below first next
    × (lo < hi)
    × (ids ≡ id ∷ below)

module _ (block_size capacity : ℕ) where
  -- Nothing but these blocks changes.
  abbrev pub Keeps : Stream → Stream → List ℕ → Type 0
  Keeps s t used =
      (a : ℕ) (n : Node)
      → 0 < occurs a used
      → At block_size capacity s a n
      → At block_size capacity t a n

  pub Subtree-Asc :
      (s : Stream) (d id lo hi : ℕ) (es : List Entry) (ids : List ℕ) (first next : ℕ)
      → Subtree block_size capacity s d id lo hi es ids first next
      → Asc lo es hi
  Subtree-Asc s zero id lo hi es ids first next (at, a, less, i, f) = a
  Subtree-Asc s (suc d) id lo hi es ids first next (c, seps, below, at, kids, less, i) =
      Kids-Asc (Subtree block_size capacity s d) (Subtree-Asc s d) c lo seps hi es below first next
        kids

  -- A subtree stays where nothing of it is written.
  pub Subtree-Keeps :
      (s t : Stream) (used : List ℕ)
      → Keeps s t used
      → (d id lo hi : ℕ) (es : List Entry) (ids : List ℕ) (first next : ℕ) → Within ids used
      → Subtree block_size capacity s d id lo hi es ids first next
      → Subtree block_size capacity t d id lo hi es ids first next
  Subtree-Keeps s t used keeps zero id lo hi es ids first next within (at, a, less, i, f) =
      (keeps id (leaf es next) (ground (arith, within id, ap (occurs id) i)) at, a, less, i, f)
  Subtree-Keeps s t used keeps (suc d) id lo hi es ids first next within
        (c, seps, below, at, kids, less, i) =
      (
        c,
        seps,
        below,
        keeps id (internal c seps) (ground (arith, within id, ap (occurs id) i)) at,
        Kids-map (Subtree block_size capacity s d) (Subtree block_size capacity t d) used
            (Subtree-Keeps s t used keeps d) c lo seps hi es below first next
            (λ a. ground (arith, within a, ap (occurs a) i)) kids,
        less,
        i,
      )
