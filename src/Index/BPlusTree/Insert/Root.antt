-- ===== src/Index/BPlusTree/Insert/Root.antt =====
-- `propagate` at the root.
use laboratory.Base.{
  ◌*◌, occurs, occurs-append, ℕ, suc, ◌+◌, ◌≤◌, ◌<◌, ◌≡◌, refl, sym, ap, subst, arith, ◌⊎◌, inl,
  inr, true, false, List, [], ◌∷◌, ◌++◌, length, take, drop, leb, ◌==◌, Bool-cases,
}
use laboratory.Index.{Entry, rank, two_31, two_32, no_split, add_int, place}
use laboratory.Index.Order.{Storable, length-place}
use laboratory.Index.Stream.{Stream}
use laboratory.Index.BPlusTree.{BPlusTree, split_index}
use laboratory.Index.BPlusTree.Blocks.{write_internal}
use laboratory.Index.BPlusTree.Nodes.{internal, At, Ready, moved}
use laboratory.Index.BPlusTree.Nodes.Reading.{read_internal_lem}
use laboratory.Index.BPlusTree.Nodes.Writing.{write_internal_lem}
use laboratory.Index.BPlusTree.Nodes.Exact.{Exact, Exact-new}
use laboratory.Index.BPlusTree.Kids.{Kids}
use laboratory.Index.BPlusTree.Subtree.{Subtree, Subtree-Keeps, Keeps}
use laboratory.Index.BPlusTree.Insert.{propagate, entry_at}
use laboratory.Index.BPlusTree.Invariant.{slot}
use laboratory.Index.BPlusTree.Insert.Outcome.{with_file, fresh, Halves, Grown}
use laboratory.Index.BPlusTree.Invariant.{IsTree}
use laboratory.Index.BPlusTree.Insert.Node.{node_whole, node_split, sorted_separators}

-- A root that was not split.
pub IsTree-Whole :
    (t : BPlusTree) (d n : ℕ) (es : List Entry) (s : Stream) (ids ids' : List ℕ) (first : ℕ)
    → Ready t
    → s.failed ≡ false
    → (8 * t.capacity + 4 ≡ t.block_size → Exact t.block_size s n)
    → t.depth ≡ d
    → (0 < d) ⊎ ((n ≡ 1) × (d ≡ 0))
    → d < t.num_of_nodes
    → t.num_of_nodes ≤ n
    → n < two_31
    → ((a : ℕ) → occurs a ids ≤ slot t.num_of_nodes a)
    → ((a : ℕ) → occurs a ids' ≤ occurs a ids + fresh t.num_of_nodes n a)
    → Subtree t.block_size t.capacity s d t.root_bid 0 two_32 es ids' first 0
    → IsTree (with_file t n s) es
IsTree-Whole t d n es s ids ids' first ready fine exact deep pos low more room uses few tree =
    record {
      ready = record { layout = ready.layout; fine = fine };
      small = room;
      exact = exact;
      shape = inr (record {
        ids = ids';
        first = first;
        some_node = omega arith;
        levels = elim pos [
          | inl some_level ↦ inr (omega arith, omega arith, omega arith)
          | inr (only, flat) ↦ inl (only, omega arith)
        ];
        uses = λ a. ground (arith, uses a, few a);
        tree =
            subst (λ k. Subtree t.block_size t.capacity s k t.root_bid 0 two_32 es ids' first 0)
              (sym deep) tree;
      });
    }

-- A root that was split, with a new root above its halves.
-- A new root above a block and the one split off.
abbrev pub new_root : Entry → ℕ → BPlusTree → BPlusTree
new_root promoted block_id t =
    let new_root_id = add_int t.num_of_nodes 1 in
    let t1 =
      write_internal new_root_id block_id (promoted ∷ [])
        (record t { num_of_nodes = new_root_id }) in
    record t1 { root_bid = new_root_id; depth = add_int t1.depth 1 }

pub IsTree-Halves :
    (t : BPlusTree) (d n : ℕ) (es : List Entry) (s : Stream) (ids : List ℕ) (first : ℕ)
    (promoted : Entry)
    → Ready t
    → s.failed ≡ false
    → (8 * t.capacity + 4 ≡ t.block_size → Exact t.block_size s n)
    → t.depth ≡ d
    → d < t.num_of_nodes
    → t.num_of_nodes ≤ n
    → n + 1 < two_31
    → t.root_bid < two_31
    → ((a : ℕ) → occurs a ids ≤ slot t.num_of_nodes a)
    → Halves t.block_size t.capacity s d t.root_bid 0 two_32 es first 0 promoted
        (λ a. occurs a ids + fresh t.num_of_nodes n a)
    → IsTree (new_root promoted t.root_bid (with_file t n s)) es
unfolding write_internal
IsTree-Halves t d n es s ids first promoted ready fine exact deep low more room root_small uses h =
    let new_id : add_int n 1 ≡ n + 1 = omega arith in
    rw new_id (
      let t1 = with_file t (n + 1) s in
      let w =
        write_internal_lem t1 (n + 1) (record { layout = ready.layout; fine = fine }) (omega arith)
          room t.root_bid (promoted ∷ [])
          (h.good, omega (arith, ready.layout.some_entry), omega arith) in
      let s' = (write_internal (n + 1) t.root_bid (promoted ∷ []) t1).bin_file in
      let keeps : (used : List ℕ)
          → ((a : ℕ) → occurs a used ≤ slot n a)
          → Keeps t.block_size t.capacity s s' used =
        λ used old a m here v. w.kept a m (λ same_id. ground (arith, old (n + 1))) v in
      let deeper : suc d ≡ add_int t.depth 1 = ground (arith, deep) in
      let L = h.left_ids in
      let R = h.right_ids in
      record {
        ready = record { layout = ready.layout; fine = w.fine };
        small = room;
        exact = λ no_rest.
            Exact-new t1 (n + 1) (internal t.root_bid (promoted ∷ [])) s' n no_rest
              (record { whole = (exact no_rest).whole; head = (exact no_rest).head }) w refl;
        shape = inr (record {
          ids = (n + 1) ∷ (L ++ R);
          first = first;
          some_node = omega arith;
          levels = inr (omega arith, ground (arith, deep), ground (arith, deep));
          uses = λ a. ground (arith, uses a, h.few a, occurs-append a L R);
          tree =
              subst
                (λ k.
                  Subtree t.block_size t.capacity s' k (n + 1) 0 two_32 es ((n + 1) ∷ (L ++ R))
                    first 0)
                deeper
                (
                  t.root_bid,
                  promoted ∷ [],
                  L ++ R,
                  w.stored,
                  (
                    record {
                      first_entries = h.left;
                      other_entries = h.right;
                      first_ids = L;
                      other_ids = R;
                      middle = h.middle;
                    },
                    h.whole,
                    refl,
                    h.above,
                    h.below,
                    Subtree-Keeps t.block_size t.capacity s s' L
                        (keeps L (λ a. ground (arith, uses a, h.few a))) d t.root_bid 0
                        (rank promoted.key) h.left L first h.middle (λ a. omega arith) h.left_tree,
                    Subtree-Keeps t.block_size t.capacity s s' R
                        (keeps R (λ a. ground (arith, uses a, h.few a))) d promoted.value
                        (rank promoted.key) two_32 h.right R h.middle 0 (λ a. omega arith)
                        h.right_tree,
                  ),
                  omega arith,
                  refl,
                );
        });
      })

-- Both, for the result of a change at the root.
module _ (t : BPlusTree) (extra d : ℕ) (es : List Entry) (ids : List ℕ) (first : ℕ)
    (promoted : Entry) (t' : BPlusTree) (ready : Ready t)
    (exact : 8 * t.capacity + 4 ≡ t.block_size → Exact t.block_size t.bin_file t.num_of_nodes)
    (deep : t.depth ≡ d) (low : d < t.num_of_nodes) (room : t.num_of_nodes + extra + 1 < two_31)
    (uses : (a : ℕ) → occurs a ids ≤ slot t.num_of_nodes a)
    (g : Grown t extra d t.root_bid 0 two_32 es ids first 0 (promoted, t')) where
  now_one : (0 < d) ⊎ ((t'.num_of_nodes ≡ 1) × (d ≡ 0)) → (0 < d) ⊎ ((g.n ≡ 1) × (d ≡ 0))
  now_one (inl pos) = inl pos
  now_one (inr (one, flat)) = inr (omega (arith, one, ap (λ r. r.1.num_of_nodes) g.is_result), flat)

  pub Grown-IsTree :
      (0 < d) ⊎ ((t'.num_of_nodes ≡ 1) × (d ≡ 0)) → promoted ≡ no_split → IsTree t' es
  Grown-IsTree pos whole =
      subst (λ r. IsTree r.1 es) (sym g.is_result)
        (elim g.outcome [
          | inl (is_no, ids', tree, few) ↦
              IsTree-Whole t d g.n es g.s ids ids' first ready g.fine
                (λ no_rest. g.exact no_rest (exact no_rest)) deep (now_one pos) low g.grown
                (omega (arith, g.bounded)) uses few tree
          | inr h ↦
              absurd (
                omega (arith, h.is_block, ap (λ r. r.0.value) g.is_result, ap (λ k. k.value) whole))
        ])

  pub Grown-new_root :
      promoted.value < two_31 → t.root_bid < two_31 → IsTree (new_root promoted t.root_bid t') es
  Grown-new_root is_block root_small =
      subst (λ r. IsTree (new_root r.0 t.root_bid r.1) es) (sym g.is_result)
        (elim g.outcome [
          | inl (is_no, ids', tree, few) ↦
              absurd
                (omega (arith, is_block, ap (λ r. r.0.value) g.is_result, ap (λ k. k.value) is_no))
          | inr h ↦
              IsTree-Halves t d g.n es g.s ids first g.promoted ready g.fine
                (λ no_rest. g.exact no_rest (exact no_rest)) deep low g.grown
                (omega (arith, g.bounded)) root_small uses h
        ])

module _ (t : BPlusTree) (sep : Entry) (d c : ℕ) (seps es : List Entry) (all : List ℕ) (first : ℕ)
    (ready : Ready t)
    (exact : 8 * t.capacity + 4 ≡ t.block_size → Exact t.block_size t.bin_file t.num_of_nodes)
    (good : Storable (sep ∷ [])) (sep_high : rank sep.key < two_32)
    (uses : (a : ℕ) → occurs a (t.root_bid ∷ all) ≤ slot t.num_of_nodes a) (deep : t.depth ≡ suc d)
    (low : suc d < t.num_of_nodes) (room : t.num_of_nodes + 2 < two_31)
    (at : At t.block_size t.capacity t.bin_file t.root_bid (internal c seps))
    (kids : Kids
      (Subtree t.block_size t.capacity t.bin_file d)
      c
      0
      (place sep seps)
      two_32
      es
      all
      first
      0) where
  pub propagate-IsTree : IsTree (propagate sep t.root_bid t).1 es
  unfolding propagate write_internal
  propagate-IsTree =
      let id = t.root_bid in
      let some_room : t.num_of_nodes + 1 < two_31 = omega arith in
      let (p, got) = read_internal_lem t id ready c seps at in
      let sorted =
        sorted_separators t sep d id c 0 two_32 seps es all first 0 ready good sep_high
          (omega arith) uses some_room at kids in
      let new_id : add_int t.num_of_nodes 1 ≡ t.num_of_nodes + 1 = omega arith in
      let here : (t.root_bid == t.root_bid) ≡ true = ground arith in
      elim (Bool-cases (leb (length (place sep seps)) t.capacity)) [
        | inl short ↦
            let g =
              node_whole t sep d id c 0 two_32 seps es all first 0 ready good sep_high (omega arith)
                uses some_room at kids p (ground (arith, short)) in
            rw (got, sorted, short)
              (Grown-IsTree t 1 (suc d) es (id ∷ all) first no_split
                (write_internal id c (place sep seps) (moved t p)) ready exact deep low
                (omega arith) uses g (inl (omega arith)) refl)
        | inr long ↦
            let g =
              node_split t sep d id c 0 two_32 seps es all first 0 ready good sep_high (omega arith)
                uses some_room at kids p (ground (arith, long, length-place sep seps, at.fits.1)) in
            let mid = split_index t in
            let new = t.num_of_nodes + 1 in
            let at_mid = entry_at (place sep seps) mid in
            rw (got, sorted, new_id, long, here)
              (Grown-new_root t 1 (suc d) es (id ∷ all) first
                (record { key = at_mid.key; value = new })
                (write_internal new at_mid.value (drop (mid + 1) (place sep seps)) (
                  write_internal id c (take mid (place sep seps))
                    (moved (with_file t new t.bin_file) p)))
                ready exact deep low (omega arith) uses g some_room at.id_small)
      ]
