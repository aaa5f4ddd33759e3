-- ===== src/Index/BPlusTree/Range.antt =====
-- `rangeSearch` finds what the tree holds in the range.
use laboratory.Base.{
  ℕ, zero, suc, ◌≤◌, ◌<◌, ◌≡◌, refl, ap, subst, ◌∙◌, arith, true, false, ◌⊎◌, inl, inr, List, [],
  ◌∷◌, ◌++◌, ◌==◌, ◌||◌, if◌then◌else◌, some, Bool-cases,
}
use laboratory.Index.{Entry, rank, two_32, lt_int}
use laboratory.Index.Order.{Asc, Asc-append, Asc-behind}
use laboratory.Index.BPlusTree.{BPlusTree}
use laboratory.Index.BPlusTree.Search.{collect, walk_leaves, range_search}
use laboratory.Index.BPlusTree.Nodes.{Ready, Ready-moved, moved}
use laboratory.Index.BPlusTree.Nodes.Reading.{read_leaf_lem}
use laboratory.Index.BPlusTree.Invariant.{IsTree, length-Uses}
use laboratory.Index.BPlusTree.Reach.{Leaves, Leaves-at_pos}
use laboratory.Index.BPlusTree.Lookup.{reached, get_path_lem}

-- The entries whose keys are from `first` to `last`.
unfoldable pub in_range : ℕ → ℕ → List Entry → List Entry
in_range first last [] = []
in_range first last (e ∷ es) =
    let rest = in_range first last es in
    if lt_int e.key first || lt_int last e.key then rest else e ∷ rest

module _ (first last : ℕ) where
  in_range-below :
      (lo k : ℕ) (xs ys : List Entry)
      → Asc lo xs k
      → k ≤ rank first
      → in_range first last (xs ++ ys) ≡ in_range first last ys
  unfolding in_range
  in_range-below lo k [] ys a h = refl
  in_range-below lo k (x ∷ xs) ys (low, high, a) h =
      ground (arith, in_range-below (suc (rank x.key)) k xs ys a h)

  in_range-above :
      (k hi : ℕ) (ys : List Entry) → Asc k ys hi → rank last < k → in_range first last ys ≡ []
  unfolding in_range
  in_range-above k hi [] a h = refl
  in_range-above k hi (y ∷ ys) (low, high, a) h =
      ground (arith, in_range-above (suc (rank y.key)) hi ys a (omega arith))

  -- What the entries of a leaf add to those of the leaves behind it.
  collect_lem :
      (lo hi : ℕ) (xs ys : List Entry)
      → Asc lo (xs ++ ys) hi
      → (((collect first last xs).1 ≡ true)
          × ((collect first last xs).0 ++ in_range first last ys ≡ in_range first last (xs ++ ys)))
        ⊎ (((collect first last xs).1 ≡ false)
            × ((collect first last xs).0 ≡ in_range first last (xs ++ ys)))
  unfolding collect in_range
  collect_lem lo hi [] ys a = inl (refl, refl)
  collect_lem lo hi (x ∷ xs) ys (low, high, a) = elim (Bool-cases (lt_int last x.key)) [
    | inl over ↦ inr (
      ground (arith, over),
      ground (arith, over, in_range-above (suc (rank x.key)) hi (xs ++ ys) a (ground arith)),
    )
    | inr under ↦ elim (collect_lem (suc (rank x.key)) hi xs ys a) [
      | inl (goes_on, same) ↦ inl (ground (arith, under, goes_on), ground (arith, under, same))
      | inr (stops, same) ↦ inr (ground (arith, under, stops), ground (arith, under, same))
    ]
  ]

  -- The loop over a chain of leaves, with more fuel than leaves.
  walk_leaves_lem :
      (fuel n a : ℕ) (t : BPlusTree) (lo hi : ℕ) (es : List Entry)
      → n < fuel
      → Ready t
      → Asc lo es hi
      → Leaves t.block_size t.capacity t.bin_file n a es 0
      → (p : ℕ) × (walk_leaves fuel first last a t ≡ (some (in_range first last es), moved t p))
  unfolding walk_leaves in_range
  walk_leaves_lem zero n a t lo hi es h ready asc leaves = absurd (omega arith)
  walk_leaves_lem (suc fuel) zero a t lo hi es h ready asc (empty, stop) =
      (t.bin_file.pos, rw (empty, stop) refl)
  walk_leaves_lem (suc fuel) (suc n) a t lo hi es h ready asc (here, rest, after, at, e, leaves) =
      let asc' = subst (λ l. Asc lo l hi) e asc in
      let (q, got) = read_leaf_lem t a ready here after at in
      let not_null : (a == 0) ≡ false = ground (arith, at.id_pos) in
      elim (collect_lem lo hi here rest asc') [
        | inl (goes_on, same) ↦
            let (p, more) =
              walk_leaves_lem fuel n after (moved t q) lo hi rest (omega arith)
                (Ready-moved t q ready) (Asc-behind lo hi here rest asc')
                (Leaves-at_pos t.block_size t.capacity t.bin_file q n after rest 0 leaves) in
            (p, ground (arith, not_null, got, goes_on, more, e, same))
        | inr (stops, same) ↦ (q, ground (arith, not_null, got, stops, e, same))
      ]

-- A range search gives the entries of the tree whose keys are from `first` to `last`, in their
-- order, with fuel for more leaves than the tree has blocks, and leaves the tree as it is.
pub range_search_lem :
    (fuel first last : ℕ) (t : BPlusTree) (es : List Entry)
    → t.num_of_nodes < fuel
    → IsTree t es
    → (p : ℕ) × (range_search fuel first last t ≡ (some (in_range first last es), moved t p))
unfolding range_search in_range
range_search_lem fuel first last t es h tree = elim tree.shape [
  | inl (none_yet, flat, empty) ↦ (t.bin_file.pos, ground (arith, empty))
  | inr root ↦
      let r = reached t es tree root first in
      let (n, n_short, leaves) = r.chain in
      let asc = Asc-append r.low r.high two_32 r.entries r.right r.entries_Asc r.right_Asc in
      let same_entries : in_range first last es ≡ in_range first last (r.entries ++ r.right) =
        ap (in_range first last) r.whole
        ∙ in_range-below first last 0 r.low r.left (r.entries ++ r.right) r.left_Asc r.low_le in
      let (p, walked) =
        walk_leaves_lem first last fuel (suc n) r.leaf_id (moved t r.p) r.low two_32
          (r.entries ++ r.right)
          (omega (arith, r.short, length-Uses t.num_of_nodes root.ids root.uses))
          (Ready-moved t r.p tree.ready) asc
          (Leaves-at_pos t.block_size t.capacity t.bin_file r.p (suc n) r.leaf_id
            (r.entries ++ r.right) 0 (r.entries, r.right, r.after, r.stands, refl, leaves)) in
      (p, ground (arith, get_path_lem t es tree root first, walked, same_entries, root.some_node))
]
