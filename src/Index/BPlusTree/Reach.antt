-- ===== src/Index/BPlusTree/Reach.antt =====
-- Where `getPath` leads in a subtree, and the chain of leaves from there on.
use laboratory.Base.{
  ℕ, zero, suc, ◌+◌, ◌≤◌, ◌<◌, ◌≡◌, refl, sym, ap, subst, ◌∙◌, arith, List, [], ◌∷◌, ◌++◌,
  append_assoc, append-nil, length, length-append,
}
use laboratory.Index.{Entry, rank}
use laboratory.Index.Order.{Asc, Asc-append}
use laboratory.Index.Stream.{Stream}
use laboratory.Index.BPlusTree.{BPlusTree}
use laboratory.Index.BPlusTree.Search.{descend}
use laboratory.Index.BPlusTree.Blocks.Laws.{at_pos}
use laboratory.Index.BPlusTree.Nodes.{leaf, At, At-moved, At-at_pos, Ready, Ready-moved, moved}
use laboratory.Index.BPlusTree.Nodes.Reading.{read_internal_lem}
use laboratory.Index.BPlusTree.Kids.{Child}
use laboratory.Index.BPlusTree.Focus.{Run, Runs, Kids-run}
use laboratory.Index.BPlusTree.Descent.{focus}
use laboratory.Index.BPlusTree.Subtree.{Subtree, Subtree-Asc, Subtree-Keeps}

-- From `first` a chain of this many leaves holds the entries and leads to `next`.
abbrev pub Leaves : ℕ → ℕ → Stream → ℕ → ℕ → List Entry → ℕ → Type 0
Leaves block_size capacity s zero first es next = (es ≡ []) × (first ≡ next)
Leaves block_size capacity s (suc n) first es next =
    (here rest : List Entry) × (after : ℕ) × At block_size capacity s first (leaf here after)
    × (es ≡ here ++ rest)
    × Leaves block_size capacity s n after rest next

module _ (block_size capacity : ℕ) (s : Stream) where
  Leaves-append :
      (n m a b c : ℕ) (xs ys : List Entry)
      → Leaves block_size capacity s n a xs b
      → Leaves block_size capacity s m b ys c
      → Leaves block_size capacity s (n + m) a (xs ++ ys) c
  Leaves-append zero m a b c xs ys (e, i) right =
      let same_length : m ≡ zero + m = omega arith in
      subst (λ k. Leaves block_size capacity s k a (xs ++ ys) c) same_length (rw (e, i) right)
  Leaves-append (suc n) m a b c xs ys (here, rest, after, at, e, left) right =
      let same_length : suc (n + m) ≡ suc n + m = omega arith in
      subst (λ k. Leaves block_size capacity s k a (xs ++ ys) c) same_length
        ((
          here,
          rest ++ ys,
          after,
          at,
          ap (λ l. l ++ ys) e ∙ append_assoc here rest ys,
          Leaves-append n m after b c rest ys left right,
        ))

  -- A chain of leaves that is not longer than the list of blocks.
  abbrev pub Chain : Run
  Chain a es ids b = (n : ℕ) × (n ≤ length ids) × Leaves block_size capacity s n a es b

  Chain-Runs :
      (P : Child)
      → ((c lo hi : ℕ) (es : List Entry) (ids : List ℕ) (first next : ℕ)
          → P c lo hi es ids first next
          → Chain first es ids next)
      → Runs P Chain
  Chain-Runs P each = record {
    stay = λ a. (0, omega arith, (refl, refl));
    each = each;
    then = λ a b c xs ys i j left right. (
      left.0 + right.0,
      omega (arith, length-append i j, left.1, right.1),
      Leaves-append left.0 right.0 a b c xs ys left.2 right.2,
    );
  }

  pub Subtree-Chain :
      (d id lo hi : ℕ) (es : List Entry) (ids : List ℕ) (first next : ℕ)
      → Subtree block_size capacity s d id lo hi es ids first next
      → Chain first es ids next
  Subtree-Chain zero id lo hi es ids first next (at, a, less, i, f) =
      (1, omega (arith, ap length i), (es, [], next, rw f at, sym (append-nil es), (refl, refl)))
  Subtree-Chain (suc d) id lo hi es ids first next (c, seps, below, at, kids, less, i) =
      let P = Subtree block_size capacity s d in
      let (n, small, leaves) =
        Kids-run P Chain (Chain-Runs P (Subtree-Chain d)) c lo seps hi es below first next kids in
      (n, omega (arith, small, ap length i), leaves)

-- Where `key` leads from a block: to a leaf, with smaller entries left of it and larger ones right.
pub record Reached (t : BPlusTree) (key d id lo hi : ℕ) (es : List Entry) (ids : List ℕ) (next : ℕ)
    : Type 0 where
  pub leaf_id : ℕ
  pub path : List ℕ
  pub p : ℕ
  pub low : ℕ
  pub high : ℕ
  pub entries : List Entry
  pub after : ℕ
  pub left : List Entry
  pub right : List Entry
  pub run : List ℕ
  pub stands : At t.block_size t.capacity t.bin_file leaf_id (leaf entries after)
  pub whole : es ≡ left ++ (entries ++ right)
  pub low_le : low ≤ rank key
  pub lt_high : rank key < high
  pub left_Asc : Asc lo left low
  pub entries_Asc : Asc low entries high
  pub right_Asc : Asc high right hi
  pub chain : Chain t.block_size t.capacity t.bin_file after right run next
  pub short : length run + 1 ≤ length ids
  pub found : descend key d id t ≡ (record { dest = leaf_id; nodes = path }, moved t p)

-- Reading elsewhere moves no subtree.
pub Subtree-moved :
    (block_size capacity : ℕ) (s : Stream) (p d id lo hi : ℕ) (es : List Entry) (ids : List ℕ)
    (first next : ℕ)
    → Subtree block_size capacity s d id lo hi es ids first next
    → Subtree block_size capacity (at_pos s p) d id lo hi es ids first next
Subtree-moved block_size capacity s p d id lo hi es ids first next =
    Subtree-Keeps block_size capacity s (at_pos s p) ids
      (λ a n used v. At-at_pos block_size capacity s p a n v) d id lo hi es ids first next
      (λ a. omega arith)

Leaves-moved :
    (block_size capacity : ℕ) (s : Stream) (p n first : ℕ) (es : List Entry) (next : ℕ)
    → Leaves block_size capacity (at_pos s p) n first es next
    → Leaves block_size capacity s n first es next
Leaves-moved block_size capacity s p zero first es next leaves = leaves
Leaves-moved block_size capacity s p (suc n) first es next (here, rest, after, at, e, leaves) = (
  here,
  rest,
  after,
  At-moved block_size capacity s p first (leaf here after) at,
  e,
  Leaves-moved block_size capacity s p n after rest next leaves,
)

pub Leaves-at_pos :
    (block_size capacity : ℕ) (s : Stream) (p n first : ℕ) (es : List Entry) (next : ℕ)
    → Leaves block_size capacity s n first es next
    → Leaves block_size capacity (at_pos s p) n first es next
Leaves-at_pos block_size capacity s p zero first es next leaves = leaves
Leaves-at_pos block_size capacity s p (suc n) first es next (here, rest, after, at, e, leaves) = (
  here,
  rest,
  after,
  At-at_pos block_size capacity s p first (leaf here after) at,
  e,
  Leaves-at_pos block_size capacity s p n after rest next leaves,
)

nest :
    {A : Type 0} (es xs ys zs us vs ws : List A)
    → es ≡ xs ++ (ys ++ zs)
    → ys ≡ us ++ (vs ++ ws)
    → es ≡ (xs ++ us) ++ (vs ++ (ws ++ zs))
nest es xs ys zs us vs ws outer inner = rw (outer, inner) (simp (append_assoc))

pub reach :
    (d : ℕ) (t : BPlusTree) (key id lo hi : ℕ) (es : List Entry) (ids : List ℕ) (first next : ℕ)
    → Ready t
    → lo ≤ rank key
    → rank key < hi
    → Subtree t.block_size t.capacity t.bin_file d id lo hi es ids first next
    → Reached t key d id lo hi es ids next
unfolding descend
reach zero t key id lo hi es ids first next ready low high (at, a, less, i, f) = record {
  leaf_id = id;
  path = id ∷ [];
  p = t.bin_file.pos;
  low = lo;
  high = hi;
  entries = es;
  after = next;
  left = [];
  right = [];
  run = [];
  stands = at;
  whole = sym (append-nil es);
  low_le = low;
  lt_high = high;
  left_Asc = omega arith;
  entries_Asc = a;
  right_Asc = omega arith;
  chain = (0, omega arith, (refl, refl));
  short = omega (arith, ap length i);
  found = refl;
}
reach (suc d) t key id lo hi es ids first next ready low high (c, seps, below, at, kids, less, i) =
    let e : Entry = record { key = key; value = 0 } in
    let P = Subtree t.block_size t.capacity t.bin_file d in
    let asc = Subtree-Asc t.block_size t.capacity t.bin_file d in
    let f = focus P asc e c lo seps hi es below first next low high kids in
    let (p, got) = read_internal_lem t id ready c seps at in
    let r =
      reach d (moved t p) key f.child f.low f.high f.entries f.ids_here f.first_here f.next_here
        (Ready-moved t p ready) f.low_le f.lt_high
        (Subtree-moved t.block_size t.capacity t.bin_file p d f.child f.low f.high f.entries
          f.ids_here f.first_here f.next_here f.here) in
    let s = t.bin_file in
    let (k, k_short, inner) = r.chain in
    let (run, (m, m_short, behind), few) =
      f.behind (Chain t.block_size t.capacity s)
        (Chain-Runs t.block_size t.capacity s P (Subtree-Chain t.block_size t.capacity s d)) in
    record {
      leaf_id = r.leaf_id;
      path = id ∷ r.path;
      p = r.p;
      low = r.low;
      high = r.high;
      entries = r.entries;
      after = r.after;
      left = f.left ++ r.left;
      right = r.right ++ f.right;
      run = r.run ++ run;
      stands = At-moved t.block_size t.capacity s p r.leaf_id (leaf r.entries r.after) r.stands;
      whole = nest es f.left f.entries f.right r.left r.entries r.right f.whole r.whole;
      low_le = r.low_le;
      lt_high = r.lt_high;
      left_Asc = Asc-append lo f.low r.low f.left r.left f.left_Asc r.left_Asc;
      entries_Asc = r.entries_Asc;
      right_Asc = Asc-append r.high f.high hi r.right f.right r.right_Asc f.right_Asc;
      chain = (
        k + m,
        omega (arith, length-append r.run run),
        Leaves-append t.block_size t.capacity s k m r.after f.next_here next r.right f.right
            (Leaves-moved t.block_size t.capacity s p k r.after r.right f.next_here inner) behind,
      );
      short = omega (arith, length-append r.run run, r.short, ap length i);
      found = ground (arith, got, f.chosen, r.found);
    }
