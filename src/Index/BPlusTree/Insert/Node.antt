-- ===== src/Index/BPlusTree/Insert/Node.antt =====
-- `propagate`.
use laboratory.Base.{
  occurs, occurs-append, ℕ, suc, ◌+◌, ◌≤◌, ◌<◌, ◌≡◌, ◌≢◌, refl, ap, subst, arith, inl, inr, false,
  List, [], ◌∷◌, ◌++◌, length, take, drop, leb, ◌==◌, Bool-cases,
}
use laboratory.Index.{Entry, rank, two_31, no_split, add_int, place, sort_entries}
use laboratory.Index.Order.{
  Asc, Storable, place-Asc-Absent, place-Storable, length-place, sort_entries-append,
}
use laboratory.Index.Stream.{Stream}
use laboratory.Index.BPlusTree.{BPlusTree, split_index}
use laboratory.Index.BPlusTree.Blocks.{write_internal}
use laboratory.Index.BPlusTree.Nodes.{Node, internal, At, At-at_pos, Ready, moved}
use laboratory.Index.BPlusTree.Nodes.Reading.{read_internal_lem}
use laboratory.Index.BPlusTree.Nodes.Writing.{write_internal_lem}
use laboratory.Index.BPlusTree.Nodes.Exact.{Exact-old, Exact-new, Exact-moved}
use laboratory.Index.BPlusTree.Kids.{Kids, Kids-Asc-separators, Kids-map, Kids-cut}
use laboratory.Index.BPlusTree.Subtree.{Subtree, Subtree-Keeps}
use laboratory.Index.BPlusTree.Insert.{propagate, entry_at}
use laboratory.Index.BPlusTree.Invariant.{slot}
use laboratory.Index.BPlusTree.Insert.Outcome.{with_file, Grown, Wrote-then}
use laboratory.Index.BPlusTree.Insert.Cut.{cut_in_two}

module _ (t : BPlusTree) (sep : Entry) (d id c lo hi : ℕ) (seps es : List Entry) (all : List ℕ)
    (first next : ℕ) (ready : Ready t) (good : Storable (sep ∷ [])) (sep_high : rank sep.key < hi)
    (less : lo < hi) (uses : (a : ℕ) → occurs a (id ∷ all) ≤ slot t.num_of_nodes a)
    (room : t.num_of_nodes + 1 < two_31)
    (at : At t.block_size t.capacity t.bin_file id (internal c seps))
    (kids : Kids
      (Subtree t.block_size t.capacity t.bin_file d)
      c
      lo
      (place sep seps)
      hi
      es
      all
      first
      next) where
  seps_Asc : Asc (suc lo) (place sep seps) hi
  seps_Asc =
      Kids-Asc-separators (Subtree t.block_size t.capacity t.bin_file d) c lo (place sep seps) hi es
        all first next less kids

  seps_good : Storable (place sep seps)
  seps_good = place-Storable sep seps good.0 good.1 good.2 at.fits.0

  -- The children stay where only the node and new blocks are written.
  Kids-kept :
      (s : Stream)
      → ((a : ℕ) (m : Node)
          → a ≢ id
          → a ≤ t.num_of_nodes
          → At t.block_size t.capacity t.bin_file a m
          → At t.block_size t.capacity s a m)
      → Kids (Subtree t.block_size t.capacity s d) c lo (place sep seps) hi es all first next
  Kids-kept s kept =
      Kids-map (Subtree t.block_size t.capacity t.bin_file d) (Subtree t.block_size t.capacity s d)
        all
        (Subtree-Keeps t.block_size t.capacity t.bin_file s all
          (λ a m used v. kept a m (λ same_id. ground (arith, uses id)) (ground (arith, uses a)) v)
          d)
        c lo (place sep seps) hi es all first next (λ a. omega arith) kids

  pub node_whole :
      (p : ℕ)
      → length (place sep seps) ≤ t.capacity
      → Grown t 1
          (suc d)
          id
          lo
          hi
          es
          (id ∷ all)
          first
          next
          (no_split, write_internal id c (place sep seps) (moved t p))
  unfolding write_internal
  node_whole p short =
      let t1 = moved t p in
      let w =
        write_internal_lem t1 id (record { layout = ready.layout; fine = ready.fine }) at.id_pos
          at.id_small c (place sep seps) (seps_good, short, at.fits.2) in
      let s = (write_internal id c (place sep seps) t1).bin_file in
      record {
        promoted = no_split;
        n = t.num_of_nodes;
        s = s;
        is_result = refl;
        fine = w.fine;
        grown = omega arith;
        bounded = omega arith;
        exact = λ no_rest exact.
            Exact-old t1 id (internal c (place sep seps)) s t.num_of_nodes no_rest
              (Exact-moved t.block_size t.bin_file p t.num_of_nodes exact) w
              (ground (arith, uses id));
        kept = λ a m unused old v.
            w.kept a m (λ same_id. ground (arith, unused))
              (At-at_pos t.block_size t.capacity t.bin_file p a m v);
        outcome = inl (
          refl,
          id ∷ all,
          (
            c,
            place sep seps,
            all,
            w.stored,
            Kids-kept s (λ a m ne old v.
                w.kept a m ne (At-at_pos t.block_size t.capacity t.bin_file p a m v)),
            less,
            refl,
          ),
          λ a. omega arith,
        );
      }

  pub node_split :
      (p : ℕ)
      → length (place sep seps) ≡ suc t.capacity
      → let mid = split_index t in
        let new = t.num_of_nodes + 1 in
        let at_mid = entry_at (place sep seps) mid in
        Grown t 1 (suc d) id lo hi es (id ∷ all) first next (
          record { key = at_mid.key; value = new },
          write_internal new at_mid.value (drop (mid + 1) (place sep seps)) (
              write_internal id c
                (take mid (place sep seps))
                (moved (with_file t new t.bin_file) p)),
        )
  unfolding write_internal
  node_split p long =
      let mid = split_index t in
      let new = t.num_of_nodes + 1 in
      let cut =
        cut_in_two t (suc lo) hi (place sep seps) ready.layout.some_entry long seps_Asc seps_good in
      let k = cut.at_mid in
      let t1 = moved (with_file t new t.bin_file) p in
      let L = take mid (place sep seps) in
      let first_write =
        write_internal_lem t1 id (record { layout = ready.layout; fine = ready.fine }) at.id_pos
          at.id_small c L (cut.left_good, cut.left_fits, at.fits.2) in
      let t2 = write_internal id c L t1 in
      let second_write =
        write_internal_lem t2 new (record { layout = ready.layout; fine = first_write.fine })
          (omega arith) room k.value cut.behind
          (cut.right_good.3, omega (arith, cut.right_fits), cut.right_good.2) in
      let t3 = write_internal new k.value cut.behind t2 in
      let w =
        Wrote-then t1 id new (internal c L) (internal k.value cut.behind) t2.bin_file t3.bin_file
          (λ same_id. ground (arith, uses id)) first_write second_write in
      let kept : (a : ℕ) (m : Node)
          → a ≢ id
          → a ≤ t.num_of_nodes
          → At t.block_size t.capacity t.bin_file a m
          → At t.block_size t.capacity t3.bin_file a m =
        λ a m ne old v.
          w.kept a m ne (λ same_id. omega arith)
            (At-at_pos t.block_size t.capacity t.bin_file p a m v) in
      let P = Subtree t.block_size t.capacity t3.bin_file d in
      let (parts, e_eq, i_eq, low, high, left, right) =
        Kids-cut P c lo L k cut.behind hi es all first next (
          subst (λ l. Kids P c lo l hi es all first next) cut.whole (Kids-kept t3.bin_file kept)) in
      record {
        promoted = record { key = k.key; value = new };
        n = new;
        s = t3.bin_file;
        is_result = ground (arith, cut.is_mid, cut.is_behind);
        fine = w.fine;
        grown = omega arith;
        bounded = omega arith;
        exact = λ no_rest exact.
            Exact-new t2 new (internal k.value cut.behind) t3.bin_file t.num_of_nodes no_rest
              (Exact-old t1 id (internal c L) t2.bin_file t.num_of_nodes no_rest
                (Exact-moved t.block_size t.bin_file p t.num_of_nodes exact) first_write
                (ground (arith, uses id)))
              second_write refl;
        kept = λ a m unused old v. kept a m (λ same_id. ground (arith, unused)) old v;
        outcome = inr (record {
          left = parts.first_entries;
          right = parts.other_entries;
          left_ids = id ∷ parts.first_ids;
          right_ids = new ∷ parts.other_ids;
          middle = parts.middle;
          good = (cut.right_good.0, cut.right_good.1, omega arith, tt);
          is_block = room;
          above = low;
          below = high;
          whole = e_eq;
          left_tree = (c, L, parts.first_ids, w.stored, left, low, refl);
          right_tree = (k.value, cut.behind, parts.other_ids, w.stored_new, right, high, refl);
          few = λ a.
              ground (arith, ap (occurs a) i_eq, occurs-append a parts.first_ids parts.other_ids);
        });
      }

  pub sorted_separators : sort_entries (seps ++ sep ∷ []) ≡ place sep seps
  sorted_separators =
      let (asc, absent) = place-Asc-Absent (suc lo) hi sep seps seps_Asc in
      sort_entries-append (suc lo) hi sep seps sep_high asc absent

  -- A node that is not the root.
  pub propagate_lem :
      id ≢ t.root_bid → Grown t 1 (suc d) id lo hi es (id ∷ all) first next (propagate sep id t)
  unfolding propagate write_internal
  propagate_lem not_root =
      let (p, got) = read_internal_lem t id ready c seps at in
      let new_id : add_int t.num_of_nodes 1 ≡ t.num_of_nodes + 1 = omega arith in
      let other : (id == t.root_bid) ≡ false = ground arith in
      elim (Bool-cases (leb (length (place sep seps)) t.capacity)) [
        | inl short ↦ rw (got, sorted_separators, short) (node_whole p (ground (arith, short)))
        | inr long ↦
            rw (got, sorted_separators, new_id, long, other)
              (node_split p (ground (arith, long, length-place sep seps, at.fits.1)))
      ]
