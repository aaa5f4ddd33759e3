-- ===== src/Index/BPlusTree/Focus.antt =====
-- What becomes of a node's children when one of them grows or is split.
pub mod First
pub mod Later
use laboratory.Base.{
  same, occurs, occurs-append, ℕ, zero, suc, ◌+◌, ◌≤◌, ◌<◌, ◌≡◌, ◌≢◌, refl, sym, ap, ap₂, subst,
  ◌∙◌, arith, Bool, true, false, inl, inr, ltb, List, [], ◌∷◌, ◌++◌, append_assoc, append-nil,
  length, length-append, Bool-cases,
}
use laboratory.Index.{Entry, rank, two_32, two_31, lt_int, place, may_precede}
use laboratory.Index.Order.{
  Asc, Asc-le, Asc-append, Asc-weaken, place_left, place_right, place_first, place_before,
  place_later,
}
use laboratory.Index.BPlusTree.Search.{choose}
use laboratory.Index.BPlusTree.Kids.{Child, Parts, Kids, Kids-map, Kids-Asc, Within}

-- A way to run through the leaves of such a child, which leads from one leaf to another: a run
-- through each child, and runs in a row.
abbrev pub Run : Type 1
Run = ℕ → List Entry → List ℕ → ℕ → Type 0

module _ (P : Child) where
  pub record Runs (C : Run) : Type 0 where
    pub stay : (a : ℕ) → C a [] [] a
    pub each :
        (c lo hi : ℕ) (es : List Entry) (ids : List ℕ) (first next : ℕ)
        → P c lo hi es ids first next
        → C first es ids next
    pub then :
        (a b c : ℕ) (xs ys : List Entry) (i j : List ℕ)
        → C a xs i b
        → C b ys j c
        → C a (xs ++ ys) (i ++ j) c

  pub Kids-run :
      (C : Run)
      → Runs C
      → (c lo : ℕ) (seps : List Entry) (hi : ℕ) (es : List Entry) (ids : List ℕ) (first next : ℕ)
      → Kids P c lo seps hi es ids first next
      → C first es ids next
  Kids-run C runs c lo [] hi es ids first next k = runs.each c lo hi es ids first next k
  Kids-run C runs c lo (x ∷ xs) hi es ids first next (parts, e_eq, i_eq, low, high, here, rest) =
      rw (e_eq, i_eq)
        (runs.then first parts.middle next parts.first_entries parts.other_entries parts.first_ids
          parts.other_ids
          (runs.each c lo (rank x.key) parts.first_entries parts.first_ids first parts.middle here)
          (Kids-run C runs x.value (rank x.key) xs hi parts.other_entries parts.other_ids
            parts.middle next rest))

module _ (P Q : Child) where
  -- The view `P` of a child passes to `Q`, if the child uses blocks of `used` only.
  abbrev pub Passes : List ℕ → Type 0
  Passes used =
      (c lo hi : ℕ) (es : List Entry) (ids : List ℕ) (first next : ℕ)
      → Within ids used
      → P c lo hi es ids first next
      → Q c lo hi es ids first next

module _ (P : Child) (e : Entry) where
  -- The child of these that `e` belongs to, with what stands left and right of it; and what the
  -- node is like when that child is replaced by one, or by two with a separator between them.
  pub record Focus (c lo : ℕ) (seps : List Entry) (hi : ℕ) (es : List Entry) (ids : List ℕ)
      (first next : ℕ) : Type 1 where
    pub child : ℕ
    pub low : ℕ
    pub high : ℕ
    pub entries : List Entry
    pub ids_here : List ℕ
    pub first_here : ℕ
    pub next_here : ℕ
    pub left : List Entry
    pub right : List Entry
    pub others : List ℕ
    pub chosen : choose e.key c seps ≡ child
    pub left_Asc : Asc lo left low
    pub right_Asc : Asc high right hi
    pub behind :
        (C : Run)
        → Runs P C
        → (run : List ℕ) × C next_here right run next × (length ids_here + length run ≤ length ids)
    pub lo_le : lo ≤ low
    pub low_le : low ≤ rank e.key
    pub lt_high : rank e.key < high
    pub here : P child low high entries ids_here first_here next_here
    pub whole : es ≡ left ++ (entries ++ right)
    pub placed : place e es ≡ left ++ (place e entries ++ right)
    pub blocks : (a : ℕ) → occurs a ids ≡ occurs a ids_here + occurs a others
    pub one :
        (Q : Child) (entries' : List Entry) (ids' : List ℕ)
        → Passes P Q others
        → Q child low high entries' ids' first_here next_here
        → (all : List ℕ) × Kids Q c lo seps hi (left ++ (entries' ++ right)) all first next
          × ((a : ℕ) → occurs a all ≡ occurs a ids' + occurs a others)
    pub two :
        (Q : Child) (s : Entry) (es_left es_right : List Entry) (ids_left ids_right : List ℕ)
        (middle : ℕ)
        → Passes P Q others
        → low < rank s.key
        → rank s.key < high
        → Q child low (rank s.key) es_left ids_left first_here middle
        → Q s.value (rank s.key) high es_right ids_right middle next_here
        → (all : List ℕ) × Kids Q c lo
            (place s seps)
            hi
            (left ++ ((es_left ++ es_right) ++ right))
            all
            first
            next
          × ((a : ℕ) → occurs a all ≡ occurs a ids_left + occurs a ids_right + occurs a others)

  pub Focus-last :
      (c lo hi : ℕ) (es : List Entry) (ids : List ℕ) (first next : ℕ)
      → lo ≤ rank e.key
      → rank e.key < hi
      → P c lo hi es ids first next
      → Focus c lo [] hi es ids first next
  unfolding choose place
  Focus-last c lo hi es ids first next low high k = record {
    child = c;
    low = lo;
    high = hi;
    entries = es;
    ids_here = ids;
    first_here = first;
    next_here = next;
    left = [];
    right = [];
    others = [];
    chosen = refl;
    left_Asc = omega arith;
    right_Asc = omega arith;
    behind = λ C runs. ([], runs.stay next, omega arith);
    lo_le = omega arith;
    low_le = low;
    lt_high = high;
    here = k;
    whole = sym (append-nil es);
    placed = sym (append-nil (place e es));
    blocks = λ a. omega arith;
    one = λ Q entries' ids' pass q. (
      ids',
      subst (λ l. Q c lo hi l ids' first next) (sym (append-nil entries')) q,
      λ a. omega arith,
    );
    two = λ Q s es_left es_right ids_left ids_right middle pass s_low s_high ql qr. (
      ids_left ++ ids_right,
      (
        record {
          first_entries = es_left;
          other_entries = es_right;
          first_ids = ids_left;
          other_ids = ids_right;
          middle = middle;
        },
        append-nil (es_left ++ es_right),
        refl,
        s_low,
        s_high,
        ql,
        qr,
      ),
      λ a. omega (arith, occurs-append a ids_left ids_right),
    );
  }
