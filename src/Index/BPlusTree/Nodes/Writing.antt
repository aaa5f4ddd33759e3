-- ===== src/Index/BPlusTree/Nodes/Writing.antt =====
-- What writing a block leaves.
use laboratory.Base.{
  max, ℕ, ◌+◌, ◌-◌, ◌*◌, ◌≤◌, ◌<◌, ◌≡◌, ◌≢◌, refl, subst, ◌∙◌, arith, false, ◌⊎◌, inl, List, length,
}
use laboratory.Index.{Entry, two_31}
use laboratory.Index.Stream.{Stream, int_at, write_int}
use laboratory.Index.Stream.Laws.{Written, write_int-Written, int_at-write_int, Written-trans}
use laboratory.Index.BPlusTree.{BPlusTree}
use laboratory.Index.BPlusTree.Blocks.{write_entries, write_dummies, write_leaf, write_internal}
use laboratory.Index.BPlusTree.Blocks.Laws.{EntriesAt, at_pos, write_entries_lem, EntriesAt-Written}
use laboratory.Index.BPlusTree.Nodes.{
  Node, leaf, internal, offset, Layout, Content, Fits, At, block_le, offsets_apart, Ready,
  seek_block,
}

-- What a write of a node to a block leaves.
pub record Wrote (t : BPlusTree) (id : ℕ) (n : Node) (s : Stream) : Type 0 where
  pub fine : s.failed ≡ false
  pub stored : At t.block_size t.capacity s id n
  pub head : 4 ≤ t.bin_file.size → int_at s.cell 0 ≡ int_at t.bin_file.cell 0
  pub more : t.bin_file.size ≤ s.size
  pub least : s.size ≤ max t.bin_file.size (offset t.block_size id + (8 * t.capacity + 4))
  pub kept :
      (other : ℕ) (m : Node)
      → other ≢ id
      → At t.block_size t.capacity t.bin_file other m
      → At t.block_size t.capacity s other m

-- A node stays where it is if nothing of its block is written.
pub At-kept :
    {block_size capacity k : ℕ} {s t : Stream} (id : ℕ) (m : Node)
    → Written s t k
    → (s.pos + k ≤ offset block_size id) ⊎ (offset block_size id + (8 * capacity + 4) ≤ s.pos)
    → At block_size capacity s id m
    → At block_size capacity t id m
At-kept {block_size} {capacity} {k} {s} {t} id (leaf entries next) w apart v = record {
  id_pos = v.id_pos;
  id_small = v.id_small;
  fits = v.fits;
  inside = omega (arith, v.inside, w.grown);
  content = (
    EntriesAt-Written capacity (offset block_size id) entries w (ground arith)
        (omega (arith, v.inside)) v.content.0,
    w.kept (offset block_size id + 8 * capacity) (ground arith) (omega (arith, v.inside))
        ∙ v.content.1,
  );
}
At-kept {block_size} {capacity} {k} {s} {t} id (internal first_child separators) w apart v =
    record {
      id_pos = v.id_pos;
      id_small = v.id_small;
      fits = v.fits;
      inside = omega (arith, v.inside, w.grown);
      content = (
        w.kept (offset block_size id) (ground arith) (omega (arith, v.inside)) ∙ v.content.0,
        EntriesAt-Written capacity (offset block_size id + 4) separators w (ground arith)
            (omega (arith, v.inside)) v.content.1,
      );
    }

-- A node at another block stays where it is.
At-Written :
    {block_size capacity : ℕ} {s t : Stream} (id other : ℕ) (m : Node)
    → Layout block_size capacity
    → Written s t (8 * capacity + 4)
    → s.pos ≡ offset block_size id
    → 0 < id
    → other ≢ id
    → At block_size capacity s other m
    → At block_size capacity t other m
At-Written {block_size} id other m layout w here pos ne v =
    let apart = offsets_apart block_size other id v.id_pos pos ne in
    At-kept other m w (ground (arith, layout.used)) v

module _ (t : BPlusTree) (id : ℕ) (ready : Ready t) (id_pos : 0 < id) (id_small : id < two_31) where
  start : Stream
  start = at_pos t.bin_file (offset t.block_size id)

  wrote :
      (n : Node) (s : Stream)
      → Fits t.capacity n
      → Written start s (8 * t.capacity + 4)
      → Content s.cell (offset t.block_size id) t.capacity n
      → Wrote t id n s
  unfolding start
  wrote n s fits w content = record {
    fine = w.fine;
    stored = record {
      id_pos = id_pos;
      id_small = id_small;
      fits = fits;
      inside = ground (arith, w.reached);
      content = content;
    };
    head = λ long. w.kept 0 (inl (omega (arith, block_le t.block_size id id_pos))) long;
    more = w.grown;
    least = w.least;
    kept = λ other m ne v. At-Written id other m ready.layout w refl id_pos ne (record {
      id_pos = v.id_pos;
      id_small = v.id_small;
      fits = v.fits;
      inside = v.inside;
      content = v.content;
    });
  }

  pub write_leaf_lem :
      (entries : List Entry) (next : ℕ)
      → Fits t.capacity (leaf entries next)
      → Wrote t id (leaf entries next) (write_leaf id entries next t).bin_file
  unfolding write_leaf start
  write_leaf_lem entries next (good, short, small) = rw (seek_block t id ready id_pos id_small) (
      let s2 = write_dummies (t.capacity - length entries) (write_entries entries start) in
      let (w, held) = write_entries_lem t.capacity entries start ready.fine good short in
      let last = write_int-Written s2 next w.fine in
      wrote (leaf entries next) (write_int next s2) (good, short, small) (Written-trans w last)
        (
          EntriesAt-Written t.capacity (offset t.block_size id) entries last
              (inl (omega (arith, w.moved))) (ground (arith, w.reached)) held,
          subst (λ p. int_at (write_int next s2).cell p ≡ next) w.moved
              (int_at-write_int s2 next w.fine small),
        ))

  pub write_internal_lem :
      (first_child : ℕ) (separators : List Entry)
      → Fits t.capacity (internal first_child separators)
      → Wrote t id
          (internal first_child separators)
          (write_internal id first_child separators t).bin_file
  unfolding write_internal start
  write_internal_lem first_child separators (good, short, small) =
      rw (seek_block t id ready id_pos id_small) (
        let s1 = write_int first_child start in
        let head = write_int-Written start first_child ready.fine in
        let (w, held) = write_entries_lem t.capacity separators s1 head.fine good short in
        let s2 = write_dummies (t.capacity - length separators) (write_entries separators s1) in
        wrote (internal first_child separators) s2 (good, short, small)
          (subst (Written start s2) (omega arith) (Written-trans head w))
          (
            w.kept (offset t.block_size id) (inl (omega (arith, head.moved)))
                  (ground (arith, head.reached))
                ∙ int_at-write_int start first_child ready.fine small,
            subst (λ p. EntriesAt s2.cell p t.capacity separators) head.moved held,
          ))
