-- ===== src/Index/BPlusTree/Insert/Leaf.antt =====
-- `insertLeaf`.
use laboratory.Base.{
  occurs, ℕ, zero, suc, ◌+◌, ◌≤◌, ◌<◌, ◌≡◌, ◌≢◌, refl, sym, ap, subst, ◌∙◌, arith, inl, inr, List,
  [], ◌∷◌, ◌++◌, length, take, drop, leb, Bool-cases,
}
use laboratory.Index.{Entry, rank, two_31, no_split, add_int, place, sort_entries}
use laboratory.Index.Order.{
  Asc, Absent, Storable, place-Asc, place-Storable, length-place, sort_entries-append,
}
use laboratory.Index.BPlusTree.{BPlusTree, split_index}
use laboratory.Index.BPlusTree.Blocks.{write_leaf}
use laboratory.Index.BPlusTree.Nodes.{leaf, At, At-at_pos, Ready, moved, Ready-moved}
use laboratory.Index.BPlusTree.Nodes.Reading.{read_leaf_lem}
use laboratory.Index.BPlusTree.Nodes.Writing.{write_leaf_lem}
use laboratory.Index.BPlusTree.Nodes.Exact.{Exact-old, Exact-new, Exact-moved}
use laboratory.Index.BPlusTree.Insert.{insert_leaf, entry_at}
use laboratory.Index.BPlusTree.Invariant.{slot}
use laboratory.Index.BPlusTree.Insert.Outcome.{with_file, Grown, Wrote-then}
use laboratory.Index.BPlusTree.Insert.Cut.{cut_in_two}

module _ (t : BPlusTree) (e : Entry) (id lo hi : ℕ) (es : List Entry) (ids : List ℕ)
    (first next : ℕ) (ready : Ready t) (e_good : Storable (e ∷ [])) (e_low : lo ≤ rank e.key)
    (e_high : rank e.key < hi) (absent : Absent (rank e.key) es)
    (uses : (a : ℕ) → occurs a ids ≤ slot t.num_of_nodes a) (room : t.num_of_nodes + 1 < two_31)
    (at : At t.block_size t.capacity t.bin_file id (leaf es next)) (asc : Asc lo es hi)
    (i_eq : ids ≡ id ∷ []) (f_eq : first ≡ id) where
  -- The leaf has room.
  pub leaf_whole :
      (p : ℕ)
      → length (place e es) ≤ t.capacity
      → Grown t 1 zero id lo hi
          (place e es)
          ids
          first
          next
          (no_split, write_leaf id (place e es) next (moved t p))
  unfolding write_leaf
  leaf_whole p short =
      let w =
        write_leaf_lem (moved t p) id (Ready-moved t p ready) at.id_pos at.id_small (place e es)
          next (place-Storable e es e_good.0 e_good.1 e_good.2 at.fits.0, short, at.fits.2) in
      record {
        promoted = no_split;
        n = t.num_of_nodes;
        s = (write_leaf id (place e es) next (moved t p)).bin_file;
        is_result = refl;
        fine = w.fine;
        grown = omega arith;
        bounded = omega arith;
        exact = λ no_rest exact.
            Exact-old (moved t p) id (leaf (place e es) next)
              (write_leaf id (place e es) next (moved t p)).bin_file t.num_of_nodes no_rest
              (Exact-moved t.block_size t.bin_file p t.num_of_nodes exact) w
              (ground (arith, uses id, ap (occurs id) i_eq));
        kept = λ a m unused old v.
            w.kept a m (λ same_id. ground (arith, unused, ap (occurs a) i_eq))
              (At-at_pos t.block_size t.capacity t.bin_file p a m v);
        outcome = inl (
          refl,
          ids,
          (w.stored, place-Asc lo hi e es e_low e_high absent asc, omega arith, i_eq, f_eq),
          λ a. omega arith,
        );
      }

  -- The leaf is split.
  pub leaf_split :
      (p : ℕ)
      → length (place e es) ≡ suc t.capacity
      → let mid = split_index t in
        let new = t.num_of_nodes + 1 in
        let left =
          write_leaf id (take mid (place e es)) new (moved (with_file t new t.bin_file) p) in
        Grown t 1 zero id lo hi (place e es) ids first next (
          record { key = (entry_at (drop mid (place e es)) 0).key; value = new },
          write_leaf new (drop mid (place e es)) next left,
        )
  unfolding write_leaf
  leaf_split p long =
      let mid = split_index t in
      let new = t.num_of_nodes + 1 in
      let cut =
        cut_in_two t lo hi (place e es) ready.layout.some_entry long
          (place-Asc lo hi e es e_low e_high absent asc)
          (place-Storable e es e_good.0 e_good.1 e_good.2 at.fits.0) in
      let t1 = moved (with_file t new t.bin_file) p in
      let L = take mid (place e es) in
      let R = drop mid (place e es) in
      let fits_right : Storable R × (length R ≤ t.capacity) =
        subst (λ l. Storable l × (length l ≤ t.capacity)) (sym cut.from_mid)
          (cut.right_good, cut.right_fits) in
      let first_write =
        write_leaf_lem t1 id (record { layout = ready.layout; fine = ready.fine }) at.id_pos
          at.id_small L new (cut.left_good, cut.left_fits, omega arith) in
      let t2 = write_leaf id L new t1 in
      let second_write =
        write_leaf_lem t2 new (record { layout = ready.layout; fine = first_write.fine })
          (omega arith) room R next (fits_right.0, fits_right.1, at.fits.2) in
      let old_id : id ≢ new = λ same_id. ground (arith, uses id, ap (occurs id) i_eq) in
      let w =
        Wrote-then t1 id new (leaf L new) (leaf R next) t2.bin_file
          (write_leaf new R next t2).bin_file old_id first_write second_write in
      let k_eq : entry_at R 0 ≡ cut.at_mid = ap (λ l. entry_at l 0) cut.from_mid in
      record {
        promoted = record { key = cut.at_mid.key; value = new };
        n = new;
        s = (write_leaf new R next t2).bin_file;
        is_result = ap (λ k. (record { key = k.key; value = new }, write_leaf new R next t2)) k_eq;
        fine = w.fine;
        grown = omega arith;
        bounded = omega arith;
        exact = λ no_rest exact.
            Exact-new t2 new (leaf R next) (write_leaf new R next t2).bin_file t.num_of_nodes
              no_rest
              (Exact-old t1 id (leaf L new) t2.bin_file t.num_of_nodes no_rest
                (Exact-moved t.block_size t.bin_file p t.num_of_nodes exact) first_write
                (ground (arith, uses id, ap (occurs id) i_eq)))
              second_write refl;
        kept = λ a m unused old v.
            w.kept a m (λ same_id. ground (arith, unused, ap (occurs a) i_eq))
              (λ same_id. omega arith) (At-at_pos t.block_size t.capacity t.bin_file p a m v);
        outcome = inr (record {
          left = L;
          right = R;
          left_ids = id ∷ [];
          right_ids = new ∷ [];
          middle = new;
          good = (cut.right_good.0, cut.right_good.1, omega arith, tt);
          is_block = room;
          above = cut.above;
          below = cut.right_Asc.1;
          whole = cut.whole ∙ ap (λ l. L ++ l) (sym cut.from_mid);
          left_tree = (w.stored, cut.left_Asc, cut.above, refl, f_eq);
          right_tree = (
            w.stored_new,
            subst (λ l. Asc (rank cut.at_mid.key) l hi) (sym cut.from_mid) cut.right_Asc,
            cut.right_Asc.1,
            refl,
            refl,
          );
          few = λ a. ground (arith, ap (occurs a) i_eq);
        });
      }

  pub insert_leaf_lem : Grown t 1 zero id lo hi (place e es) ids first next (insert_leaf e id t)
  unfolding insert_leaf
  insert_leaf_lem =
      let (p, got) = read_leaf_lem t id ready es next at in
      let sorted : sort_entries (es ++ e ∷ []) ≡ place e es =
        sort_entries-append lo hi e es e_high asc absent in
      let new_id : add_int t.num_of_nodes 1 ≡ t.num_of_nodes + 1 = omega arith in
      elim (Bool-cases (leb (length (place e es)) t.capacity)) [
        | inl short ↦ rw (got, sorted, new_id, short) (leaf_whole p (ground (arith, short)))
        | inr long ↦
            rw (got, sorted, new_id, long)
              (leaf_split p (ground (arith, long, length-place e es, at.fits.1)))
      ]
