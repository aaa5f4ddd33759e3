-- ===== src/Index/BPlusTree/Insert/Cut.antt =====
-- Where `insertLeaf` and `propagate` cut a node that is too long.
use laboratory.Base.{
  ℕ, suc, ◌+◌, ◌≤◌, ◌<◌, ◌≡◌, refl, ap, subst, arith, List, ◌∷◌, ◌++◌, length, take, drop,
}
use laboratory.Index.{Entry, rank, no_split}
use laboratory.Index.Order.{Asc, Storable, Storable-append, Asc-cut, take-drop}
use laboratory.Index.BPlusTree.{BPlusTree, split_index}
use laboratory.Index.BPlusTree.Insert.{entry_at}

-- A sorted list of one entry too many, cut for two leaves or two internal nodes.
pub record CutInTwo (capacity lo hi : ℕ) (es : List Entry) (mid : ℕ) : Type 0 where
  pub at_mid : Entry
  pub behind : List Entry
  pub is_mid : entry_at es mid ≡ at_mid
  pub is_behind : drop (mid + 1) es ≡ behind
  pub whole : es ≡ take mid es ++ at_mid ∷ behind
  pub from_mid : drop mid es ≡ at_mid ∷ behind
  pub left_Asc : Asc lo (take mid es) (rank at_mid.key)
  pub right_Asc : Asc (rank at_mid.key) (at_mid ∷ behind) hi
  pub above : lo < rank at_mid.key
  pub left_good : Storable (take mid es)
  pub right_good : Storable (at_mid ∷ behind)
  pub left_fits : length (take mid es) ≤ capacity
  pub right_fits : length (at_mid ∷ behind) ≤ capacity

pub cut_in_two :
    (t : BPlusTree) (lo hi : ℕ) (es : List Entry)
    → 0 < t.capacity
    → length es ≡ suc t.capacity
    → Asc lo es hi
    → Storable es
    → CutInTwo t.capacity lo hi es (split_index t)
cut_in_two t lo hi es pos long asc good =
    let mid = split_index t in
    let (whole, from_mid, left_size, right_size) = take-drop mid es no_split (omega arith) in
    let k = entry_at es mid in
    let R = drop (suc mid) es in
    let (left_Asc, right_Asc, far) =
      Asc-cut lo hi (take mid es) k R (subst (λ l. Asc lo l hi) whole asc) in
    let (left_good, right_good) =
      Storable-append (take mid es) (k ∷ R) (subst Storable whole good) in
    let next_one : mid + 1 ≡ suc mid = omega arith in
    record {
      at_mid = k;
      behind = R;
      is_mid = refl;
      is_behind = ap (λ i. drop i es) next_one;
      whole = whole;
      from_mid = from_mid;
      left_Asc = left_Asc;
      right_Asc = right_Asc;
      above = omega (arith, far);
      left_good = left_good;
      right_good = right_good;
      left_fits = omega arith;
      right_fits = omega arith;
    }
