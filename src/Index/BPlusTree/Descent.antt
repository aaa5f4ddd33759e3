-- ===== src/Index/BPlusTree/Descent.antt =====
-- The child that a key leads to.
use laboratory.Base.{ℕ, ◌≤◌, ◌<◌, arith, inl, inr, ltb, List, [], ◌∷◌, Bool-cases}
use laboratory.Index.{Entry, rank}
use laboratory.Index.Order.{Asc}
use laboratory.Index.BPlusTree.Kids.{Child, Kids}
use laboratory.Index.BPlusTree.Focus.{Focus, Focus-last}
use laboratory.Index.BPlusTree.Focus.First.{Focus-here}
use laboratory.Index.BPlusTree.Focus.Later.{Focus-there}

module _ (P : Child)
    (asc : (c lo hi : ℕ) (es : List Entry) (ids : List ℕ) (first next : ℕ)
      → P c lo hi es ids first next
      → Asc lo es hi)
    (e : Entry) where
  pub focus :
      (c lo : ℕ) (seps : List Entry) (hi : ℕ) (es : List Entry) (ids : List ℕ) (first next : ℕ)
      → lo ≤ rank e.key
      → rank e.key < hi
      → Kids P c lo seps hi es ids first next
      → Focus P e c lo seps hi es ids first next
  focus c lo [] hi es ids first next low high k =
      Focus-last P e c lo hi es ids first next low high k
  focus c lo (x ∷ xs) hi es ids first next low high (parts, e_eq, i_eq, x_low, x_high, k, rest) =
      elim (Bool-cases (ltb (rank e.key) (rank x.key))) [
        | inl less ↦
            Focus-here P asc e c lo x xs hi es ids first next parts e_eq i_eq x_low x_high k rest
              low (ground arith)
        | inr more ↦
            Focus-there P asc e c lo x xs hi es ids first next parts e_eq i_eq x_low x_high k rest
              (ground arith)
              (focus x.value (rank x.key) xs hi parts.other_entries parts.other_ids parts.middle
                next (ground arith) high rest)
      ]
