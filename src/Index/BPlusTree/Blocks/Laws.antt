-- ===== src/Index/BPlusTree/Blocks/Laws.antt =====
-- A block that was written is read back, and writing it leaves the other blocks alone.
use laboratory.Base.{
  ℕ, zero, suc, ◌+◌, ◌-◌, ◌*◌, ◌≤◌, ◌<◌, ◌≡◌, refl, ap, subst, ◌∙◌, arith, false, ◌⊎◌, inl, List,
  [], ◌∷◌, length,
}
use laboratory.Index.Order.{Storable}
use laboratory.Index.{Entry, two_32}
use laboratory.Index.Stream.{Stream, int_at, write_int}
use laboratory.Index.Stream.Laws.{
  read_int_lem, Written, write_int-Written, int_at-write_int, Written-trans,
}
use laboratory.Index.BPlusTree.Blocks.{read_entries, read_separators, write_entries, write_dummies}

-- The `n` places from `o` on hold these entries and then zeros.
abbrev pub EntriesAt : (ℕ → ℕ) → ℕ → ℕ → List Entry → Type 0
EntriesAt cell o zero [] = Unit {0}
EntriesAt cell o zero (e ∷ es) = ⊥
EntriesAt cell o (suc n) [] =
    (int_at cell o ≡ 0) × (int_at cell (o + 4) ≡ 0) × EntriesAt cell (o + 4 + 4) n []
EntriesAt cell o (suc n) (e ∷ es) =
    (int_at cell o ≡ e.key) × (int_at cell (o + 4) ≡ e.value) × EntriesAt cell (o + 4 + 4) n es

-- A stream at another position.
abbrev pub at_pos : Stream → ℕ → Stream
at_pos s p = record s { pos = p }

pub read_entries_lem :
    (n : ℕ) (es : List Entry) (s : Stream)
    → s.failed ≡ false
    → s.pos + 8 * n ≤ s.size
    → EntriesAt s.cell s.pos n es
    → Storable es
    → read_entries n s ≡ (es, at_pos s (s.pos + 8 * n))
unfolding read_entries
read_entries_lem zero [] s fine inside held good = ground arith
read_entries_lem zero (e ∷ es) s fine inside held good = elim held [ ]
read_entries_lem (suc n) [] s fine inside (k, v, held) good = ground (
  arith,
  read_int_lem s fine (omega arith),
  read_int_lem (at_pos s (s.pos + 4)) fine (omega arith),
  read_entries_lem n [] (at_pos s (s.pos + 4 + 4)) fine (omega arith) held good,
)
read_entries_lem (suc n) (e ∷ es) s fine inside (k, v, held) (pos, small, value_small, good) =
    ground (
      arith,
      read_int_lem s fine (omega arith),
      read_int_lem (at_pos s (s.pos + 4)) fine (omega arith),
      read_entries_lem n es (at_pos s (s.pos + 4 + 4)) fine (omega arith) held good,
    )

-- The position behind is that of the last separator read.
pub read_separators_lem :
    (n : ℕ) (es : List Entry) (s : Stream)
    → s.failed ≡ false
    → s.pos + 8 * n ≤ s.size
    → EntriesAt s.cell s.pos n es
    → Storable es
    → (p : ℕ) × (read_separators n s ≡ (es, at_pos s p))
unfolding read_separators
read_separators_lem zero [] s fine inside held good = (s.pos, refl)
read_separators_lem zero (e ∷ es) s fine inside held good = elim held [ ]
read_separators_lem (suc n) [] s fine inside (k, v, held) good = (
  s.pos + 4 + 4,
  ground (
    arith,
    read_int_lem s fine (omega arith),
    read_int_lem (at_pos s (s.pos + 4)) fine (omega arith),
  ),
)
read_separators_lem (suc n) (e ∷ es) s fine inside (k, v, held) (pos, small, value_small, good) =
    let (p, rest) =
      read_separators_lem n es (at_pos s (s.pos + 4 + 4)) fine (omega arith) held good in
    (
      p,
      ground (
        arith,
        read_int_lem s fine (omega arith),
        read_int_lem (at_pos s (s.pos + 4)) fine (omega arith),
        rest,
      ),
    )

abbrev write_pair : ℕ → ℕ → Stream → Stream
write_pair key value s = write_int value (write_int key s)

-- The entries and then the zeros, place by place.
padded : ℕ → List Entry → Stream → Stream
padded zero es s = s
padded (suc n) [] s = padded n [] (write_pair 0 0 s)
padded (suc n) (e ∷ es) s = padded n es (write_pair e.key e.value s)

write_dummies-padded : (n : ℕ) (s : Stream) → write_dummies n s ≡ padded n [] s
unfolding write_dummies padded
write_dummies-padded zero s = refl
write_dummies-padded (suc n) s = write_dummies-padded n (write_pair 0 0 s)

write_entries-padded :
    (n : ℕ) (es : List Entry) (s : Stream)
    → length es ≤ n
    → write_dummies (n - length es) (write_entries es s) ≡ padded n es s
unfolding write_entries padded
write_entries-padded n [] s fits =
    ap (λ k. write_dummies k s) (omega arith) ∙ write_dummies-padded n s
write_entries-padded zero (e ∷ es) s fits = absurd (omega arith)
write_entries-padded (suc n) (e ∷ es) s fits =
    ap (λ k. write_dummies k (write_entries es (write_pair e.key e.value s))) (omega arith)
    ∙ write_entries-padded n es (write_pair e.key e.value s) (omega arith)

-- What a write of two integers leaves.
record Pair (s : Stream) (key value : ℕ) (t : Stream) : Type 0 where
  written : Written s t (4 + 4)
  key_at : int_at t.cell s.pos ≡ key
  value_at : int_at t.cell (s.pos + 4) ≡ value

write_pair_lem :
    (s : Stream) (key value : ℕ)
    → s.failed ≡ false
    → key < two_32
    → value < two_32
    → Pair s key value (write_pair key value s)
write_pair_lem s key value fine small value_small =
    let s1 = write_int key s in
    let first = write_int-Written s key fine in
    let second = write_int-Written s1 value first.fine in
    record {
      written = Written-trans first second;
      key_at =
          second.kept s.pos (inl (omega (arith, first.moved))) (ground (arith, first.reached))
          ∙ int_at-write_int s key fine small;
      value_at =
          subst (λ p. int_at (write_int value s1).cell p ≡ value) first.moved
            (int_at-write_int s1 value first.fine value_small);
    }

padded_step :
    {s t u : Stream} (n : ℕ) (es : List Entry) (key value : ℕ)
    → Pair s key value t
    → Written t u (8 * n)
    → EntriesAt u.cell t.pos n es
    → Written s u (8 * suc n)
      × ((int_at u.cell s.pos ≡ key)
          × (int_at u.cell (s.pos + 4) ≡ value)
          × EntriesAt u.cell (s.pos + 4 + 4) n es)
padded_step {s} {t} {u} n es key value pair rest held =
    let here = pair.written.moved in
    let there : s.pos + 4 + 4 ≤ t.size = ground (arith, pair.written.reached) in
    (
      subst (Written s u) (omega arith) (Written-trans pair.written rest),
      (
        rest.kept s.pos (inl (omega (arith, here))) (omega (arith, there)) ∙ pair.key_at,
        rest.kept (s.pos + 4) (inl (omega (arith, here))) there ∙ pair.value_at,
        subst (λ p. EntriesAt u.cell p n es) (omega (arith, here)) held,
      ),
    )

padded_lem :
    (n : ℕ) (es : List Entry) (s : Stream)
    → s.failed ≡ false
    → Storable es
    → length es ≤ n
    → Written s (padded n es s) (8 * n) × EntriesAt (padded n es s).cell s.pos n es
unfolding padded
padded_lem zero [] s fine good fits = (
  record {
    fine = fine;
    moved = omega arith;
    grown = omega arith;
    reached = inl refl;
    least = ground arith;
    kept = λ o apart inside. refl;
  },
  tt,
)
padded_lem zero (e ∷ es) s fine good fits = absurd (omega arith)
padded_lem (suc n) [] s fine good fits =
    let pair = write_pair_lem s 0 0 fine (omega arith) (omega arith) in
    let t = write_pair 0 0 s in
    let (rest, held) = padded_lem n [] t pair.written.fine good (omega arith) in
    padded_step n [] 0 0 pair rest held
padded_lem (suc n) (e ∷ es) s fine (pos, small, value_small, good) fits =
    let pair = write_pair_lem s e.key e.value fine small value_small in
    let t = write_pair e.key e.value s in
    let (rest, held) = padded_lem n es t pair.written.fine good (omega arith) in
    padded_step n es e.key e.value pair rest held

-- Writing a block's entries, with the zeros that fill its places.
pub write_entries_lem :
    (n : ℕ) (es : List Entry) (s : Stream)
    → s.failed ≡ false
    → Storable es
    → length es ≤ n
    → Written s (write_dummies (n - length es) (write_entries es s)) (8 * n)
      × EntriesAt (write_dummies (n - length es) (write_entries es s)).cell s.pos n es
write_entries_lem n es s fine good fits =
    rw (write_entries-padded n es s fits) (padded_lem n es s fine good fits)

-- Entries stay where nothing is written.
pub EntriesAt-Written :
    {s t : Stream} {k : ℕ} (n o : ℕ) (es : List Entry)
    → Written s t k
    → (o + 8 * n ≤ s.pos) ⊎ (s.pos + k ≤ o)
    → o + 8 * n ≤ s.size
    → EntriesAt s.cell o n es
    → EntriesAt t.cell o n es
EntriesAt-Written zero o [] w apart inside held = tt
EntriesAt-Written zero o (e ∷ es) w apart inside held = elim held [ ]
EntriesAt-Written (suc n) o [] w apart inside (k, v, held) = (
  w.kept o (ground arith) (omega arith) ∙ k,
  w.kept (o + 4) (ground arith) (omega arith) ∙ v,
  EntriesAt-Written n (o + 4 + 4) [] w (ground arith) (omega arith) held,
)
EntriesAt-Written (suc n) o (e ∷ es) w apart inside (k, v, held) = (
  w.kept o (ground arith) (omega arith) ∙ k,
  w.kept (o + 4) (ground arith) (omega arith) ∙ v,
  EntriesAt-Written n (o + 4 + 4) es w (ground arith) (omega arith) held,
)
