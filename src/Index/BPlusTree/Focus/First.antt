-- ===== src/Index/BPlusTree/Focus/First.antt =====
-- The entry belongs to the first child.
use laboratory.Base.{
  occurs, occurs-append, ℕ, ◌≤◌, ◌<◌, ◌≡◌, refl, sym, ap, subst, ◌∙◌, arith, List, [], ◌∷◌, ◌++◌,
  append_assoc, length, length-append,
}
use laboratory.Index.{Entry, rank, place}
use laboratory.Index.Order.{Asc, place_left, place_before}
use laboratory.Index.BPlusTree.Search.{choose}
use laboratory.Index.BPlusTree.Kids.{Child, Parts, Kids, Kids-map, Kids-Asc}
use laboratory.Index.BPlusTree.Focus.{Kids-run, Passes, Focus}

module _ (P : Child)
    (asc : (c lo hi : ℕ) (es : List Entry) (ids : List ℕ) (first next : ℕ)
      → P c lo hi es ids first next
      → Asc lo es hi)
    (e : Entry) where
  module _ (c lo : ℕ) (x : Entry) (xs : List Entry) (hi : ℕ) (es : List Entry) (ids : List ℕ)
      (first next : ℕ) (parts : Parts) (e_eq : es ≡ parts.first_entries ++ parts.other_entries)
      (i_eq : ids ≡ parts.first_ids ++ parts.other_ids) (x_low : lo < rank x.key)
      (x_high : rank x.key < hi)
      (k : P c lo (rank x.key) parts.first_entries parts.first_ids first parts.middle)
      (rest : Kids P x.value
        (rank x.key)
        xs
        hi
        parts.other_entries
        parts.other_ids
        parts.middle
        next) where
    rest-Passes :
        (Q : Child)
        → Passes P Q parts.other_ids
        → Kids Q x.value (rank x.key) xs hi parts.other_entries parts.other_ids parts.middle next
    rest-Passes Q pass =
        Kids-map P Q parts.other_ids pass x.value (rank x.key) xs hi parts.other_entries
          parts.other_ids parts.middle next (λ a. omega arith) rest

    rest_Asc : Asc (rank x.key) parts.other_entries hi
    rest_Asc =
        Kids-Asc P asc x.value (rank x.key) xs hi parts.other_entries parts.other_ids parts.middle
          next rest

    pub Focus-here :
        lo ≤ rank e.key → rank e.key < rank x.key → Focus P e c lo (x ∷ xs) hi es ids first next
    unfolding choose
    Focus-here low less = record {
      child = c;
      low = lo;
      high = rank x.key;
      entries = parts.first_entries;
      ids_here = parts.first_ids;
      first_here = first;
      next_here = parts.middle;
      left = [];
      right = parts.other_entries;
      others = parts.other_ids;
      chosen = ground arith;
      left_Asc = omega arith;
      right_Asc = rest_Asc;
      behind = λ C runs. (
        parts.other_ids,
        Kids-run P C runs x.value (rank x.key) xs hi parts.other_entries parts.other_ids
            parts.middle next rest,
        omega (arith, ap length i_eq, length-append parts.first_ids parts.other_ids),
      );
      lo_le = omega arith;
      low_le = low;
      lt_high = less;
      here = k;
      whole = e_eq;
      placed =
          ap (place e) e_eq
          ∙ place_left (rank x.key) hi e parts.first_entries parts.other_entries less (rest_Asc);
      blocks =
          λ a. omega (arith, ap (occurs a) i_eq, occurs-append a parts.first_ids parts.other_ids);
      one = λ Q entries' ids' pass q. (
        ids' ++ parts.other_ids,
        (
          record {
            first_entries = entries';
            other_entries = parts.other_entries;
            first_ids = ids';
            other_ids = parts.other_ids;
            middle = parts.middle;
          },
          refl,
          refl,
          x_low,
          x_high,
          q,
          rest-Passes Q pass,
        ),
        λ a. occurs-append a ids' parts.other_ids,
      );
      two = λ Q s es_left es_right ids_left ids_right middle pass s_low s_high ql qr. (
        ids_left ++ (ids_right ++ parts.other_ids),
        subst
            (λ seps.
              Kids Q c lo seps hi ((es_left ++ es_right) ++ parts.other_entries)
                (ids_left ++ (ids_right ++ parts.other_ids)) first next)
            (sym (place_before s x xs s_high))
            (
              record {
                first_entries = es_left;
                other_entries = es_right ++ parts.other_entries;
                first_ids = ids_left;
                other_ids = ids_right ++ parts.other_ids;
                middle = middle;
              },
              append_assoc es_left es_right parts.other_entries,
              refl,
              s_low,
              omega arith,
              ql,
              (
                record {
                  first_entries = es_right;
                  other_entries = parts.other_entries;
                  first_ids = ids_right;
                  other_ids = parts.other_ids;
                  middle = parts.middle;
                },
                refl,
                refl,
                s_high,
                x_high,
                qr,
                rest-Passes Q pass,
              ),
            ),
        λ a. omega (
          arith,
          occurs-append a ids_left (ids_right ++ parts.other_ids),
          occurs-append a ids_right parts.other_ids,
        ),
      );
    }
