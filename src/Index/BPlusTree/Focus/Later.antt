-- ===== src/Index/BPlusTree/Focus/Later.antt =====
-- The entry belongs to a later child.
use laboratory.Base.{
  occurs, occurs-append, ℕ, ◌≤◌, ◌<◌, ◌≡◌, refl, sym, ap, subst, ◌∙◌, arith, List, ◌∷◌, ◌++◌,
  append_assoc, length, length-append,
}
use laboratory.Index.{Entry, rank, place}
use laboratory.Index.Order.{Asc, Asc-append, place_right, place_later}
use laboratory.Index.BPlusTree.Search.{choose}
use laboratory.Index.BPlusTree.Kids.{Child, Parts, Kids}
use laboratory.Index.BPlusTree.Focus.{Passes, Focus}

module _ (P : Child)
    (asc : (c lo hi : ℕ) (es : List Entry) (ids : List ℕ) (first next : ℕ)
      → P c lo hi es ids first next
      → Asc lo es hi)
    (e : Entry) where
  module _ (c lo : ℕ) (x : Entry) (xs : List Entry) (hi : ℕ) (es : List Entry) (ids : List ℕ)
      (first next : ℕ) (parts : Parts) (e_eq : es ≡ parts.first_entries ++ parts.other_entries)
      (i_eq : ids ≡ parts.first_ids ++ parts.other_ids) (x_low : lo < rank x.key)
      (x_high : rank x.key < hi)
      (k : P c lo (rank x.key) parts.first_entries parts.first_ids first parts.middle)
      (rest : Kids P x.value
        (rank x.key)
        xs
        hi
        parts.other_entries
        parts.other_ids
        parts.middle
        next) where
    first_Asc : Asc lo parts.first_entries (rank x.key)
    first_Asc = asc c lo (rank x.key) parts.first_entries parts.first_ids first parts.middle k

    pub Focus-there :
        rank x.key ≤ rank e.key
        → Focus P e x.value (rank x.key) xs hi parts.other_entries parts.other_ids parts.middle next
        → Focus P e c lo (x ∷ xs) hi es ids first next
    unfolding choose
    Focus-there more f =
        let fewer : (Q : Child) → Passes P Q (parts.first_ids ++ f.others) → Passes P Q f.others =
          λ Q pass c' lo' hi' es' ids' first' next' within.
            pass c' lo' hi' es' ids' first' next'
              (λ a. omega (arith, within a, occurs-append a parts.first_ids f.others)) in
        let first_passes : (Q : Child)
            → Passes P Q (parts.first_ids ++ f.others)
            → Q c lo (rank x.key) parts.first_entries parts.first_ids first parts.middle =
          λ Q pass.
            pass c lo (rank x.key) parts.first_entries parts.first_ids first parts.middle
              (λ a. omega (arith, occurs-append a parts.first_ids f.others)) k in
        record {
          child = f.child;
          low = f.low;
          high = f.high;
          entries = f.entries;
          ids_here = f.ids_here;
          first_here = f.first_here;
          next_here = f.next_here;
          left = parts.first_entries ++ f.left;
          right = f.right;
          others = parts.first_ids ++ f.others;
          chosen = ground (arith, f.chosen);
          left_Asc =
              Asc-append lo (rank x.key) f.low parts.first_entries f.left first_Asc f.left_Asc;
          right_Asc = f.right_Asc;
          behind = λ C runs.
              let (run, rest_run, short) = f.behind C runs in
              (
                run,
                rest_run,
                omega (arith, short, ap length i_eq, length-append parts.first_ids parts.other_ids),
              );
          lo_le = omega (arith, f.lo_le);
          low_le = f.low_le;
          lt_high = f.lt_high;
          here = f.here;
          whole =
              e_eq
              ∙ ap (λ l. parts.first_entries ++ l) f.whole
              ∙ sym (append_assoc parts.first_entries f.left (f.entries ++ f.right));
          placed =
              ap (place e) e_eq
              ∙ place_right lo (rank x.key) e parts.first_entries parts.other_entries more first_Asc
              ∙ ap (λ l. parts.first_entries ++ l) f.placed
              ∙ sym (append_assoc parts.first_entries f.left (place e f.entries ++ f.right));
          blocks = λ a. omega (
            arith,
            ap (occurs a) i_eq,
            occurs-append a parts.first_ids parts.other_ids,
            occurs-append a parts.first_ids f.others,
            f.blocks a,
          );
          one = λ Q entries' ids' pass q.
              let (all, kids, occ) = f.one Q entries' ids' (fewer Q pass) q in
              (
                parts.first_ids ++ all,
                (
                  record {
                    first_entries = parts.first_entries;
                    other_entries = f.left ++ (entries' ++ f.right);
                    first_ids = parts.first_ids;
                    other_ids = all;
                    middle = parts.middle;
                  },
                  append_assoc parts.first_entries f.left (entries' ++ f.right),
                  refl,
                  x_low,
                  x_high,
                  first_passes Q pass,
                  kids,
                ),
                λ a. omega (
                  arith,
                  occ a,
                  occurs-append a parts.first_ids all,
                  occurs-append a parts.first_ids f.others,
                ),
              );
          two = λ Q s es_left es_right ids_left ids_right middle pass s_low s_high ql qr.
              let (all, kids, occ) =
                f.two Q s es_left es_right ids_left ids_right middle (fewer Q pass) s_low s_high ql
                  qr in
              (
                parts.first_ids ++ all,
                subst
                    (λ seps.
                      Kids Q c lo seps hi
                        ((parts.first_entries ++ f.left) ++ ((es_left ++ es_right) ++ f.right))
                        (parts.first_ids ++ all) first next)
                    (sym (place_later s x xs (omega (arith, f.lo_le))))
                    (
                      record {
                        first_entries = parts.first_entries;
                        other_entries = f.left ++ ((es_left ++ es_right) ++ f.right);
                        first_ids = parts.first_ids;
                        other_ids = all;
                        middle = parts.middle;
                      },
                      append_assoc parts.first_entries f.left ((es_left ++ es_right) ++ f.right),
                      refl,
                      x_low,
                      x_high,
                      first_passes Q pass,
                      kids,
                    ),
                λ a. omega (
                  arith,
                  occ a,
                  occurs-append a parts.first_ids all,
                  occurs-append a parts.first_ids f.others,
                ),
              );
        }
