-- ===== src/Index/Stream/Laws.antt =====
-- What reading and writing integers do to the bytes of a stream that has not failed.
use laboratory.Base.{
  sym, subst, max, ℕ, ◌+◌, ◌≤◌, ◌<◌, ◌≡◌, refl, ◌∙◌, arith, false, ◌⊎◌, inr, some,
}
use laboratory.Index.{two_32}
use laboratory.Index.Stream.{Stream, int_at, put_int, read_int, write_int, seek}

pub read_int_lem :
    (s : Stream)
    → s.failed ≡ false
    → s.pos + 4 ≤ s.size
    → read_int s ≡ (int_at s.cell s.pos, record s { pos = s.pos + 4 })
unfolding read_int
read_int_lem s fine inside = ground arith

pub seek_lem : (s : Stream) (o : ℕ) → s.failed ≡ false → seek (some o) s ≡ record s { pos = o }
unfolding seek
seek_lem s o fine = ground arith

-- `t` is `s` after writes of `k` bytes from its position on.
pub record Written (s t : Stream) (k : ℕ) : Type 0 where
  pub fine : t.failed ≡ false
  pub moved : t.pos ≡ s.pos + k
  pub grown : s.size ≤ t.size
  pub reached : (k ≡ 0) ⊎ (s.pos + k ≤ t.size)
  pub least : t.size ≤ max s.size (s.pos + k)
  pub kept :
      (o : ℕ)
      → (o + 4 ≤ s.pos) ⊎ (s.pos + k ≤ o)
      → o + 4 ≤ s.size
      → int_at t.cell o ≡ int_at s.cell o

put_int-read : (s : Stream) (v : ℕ) → v < two_32 → int_at (put_int s v) s.pos ≡ v
put_int-read s v h = ground arith

put_int-byte :
    (s : Stream) (v a : ℕ) → (a < s.pos) ⊎ (s.pos + 4 ≤ a) → a < s.size → put_int s v a ≡ s.cell a
put_int-byte s v a apart inside = ground arith

put_int-kept :
    (s : Stream) (v o : ℕ)
    → (o + 4 ≤ s.pos) ⊎ (s.pos + 4 ≤ o)
    → o + 4 ≤ s.size
    → int_at (put_int s v) o ≡ int_at s.cell o
put_int-kept s v o apart inside =
    let same : (k : ℕ) → k < 4 → put_int s v (o + k) ≡ s.cell (o + k) =
      λ k small. put_int-byte s v (o + k) (ground arith) (omega arith) in
    omega (
      arith,
      put_int-byte s v o (ground arith) (omega arith),
      same 1 (omega arith),
      same 2 (omega arith),
      same 3 (omega arith),
    )

write_int_lem :
    (s : Stream) (v : ℕ)
    → s.failed ≡ false
    → write_int v s
      ≡ record s { cell = put_int s v; size = max s.size (s.pos + 4); pos = s.pos + 4 }
unfolding write_int
write_int_lem s v fine = ground arith

pub write_int-Written : (s : Stream) (v : ℕ) → s.failed ≡ false → Written s (write_int v s) 4
write_int-Written s v fine =
    subst (λ t. Written s t 4) (sym (write_int_lem s v fine))
      (record {
        fine = fine;
        moved = refl;
        grown = omega arith;
        reached = inr (omega arith);
        least = omega arith;
        kept = put_int-kept s v;
      })

pub int_at-write_int :
    (s : Stream) (v : ℕ) → s.failed ≡ false → v < two_32 → int_at (write_int v s).cell s.pos ≡ v
int_at-write_int s v fine small = rw (write_int_lem s v fine) (put_int-read s v small)

-- Writes one behind the other.
pub Written-trans : {s t u : Stream} {j k : ℕ} → Written s t j → Written t u k → Written s u (j + k)
Written-trans {s} {t} {u} {j} {k} a b = record {
  fine = b.fine;
  moved = omega (arith, a.moved, b.moved);
  grown = omega (arith, a.grown, b.grown);
  reached = ground (arith, a.reached, b.reached, a.moved, b.moved, b.grown);
  least = ground (arith, a.least, b.least, a.moved, b.moved);
  kept = λ o apart inside.
      b.kept o (ground (arith, a.moved)) (omega (arith, a.grown)) ∙ a.kept o (ground arith) inside;
}
