-- ===== src/Limiter/Table/Sorting.antt =====
-- sort.Slice over the counters of a group keeps the group.
use gost_x.Prelude.{
  ℕ, ◌<◌, ◌≡◌, refl, ◌∙◌, false, ◌||◌, List, [], ◌∷◌, ◌==◌, ==_iff, Bool-cases, inl, inr, is_empty,
  arith,
}
use gost_x.Int64.{gt64}
use gost_x.Limiter.Conn.{Heap}
use gost_x.Limiter.Conn.Bump.{has, NoTwice}
use gost_x.Limiter.Table.{insert_by, sort_counters}
use gost_x.Limiter.Table.Cells.{Below, IsGroup}

has-insert_by : (h : Heap) (r j : ℕ) (qs : List ℕ) → has j (insert_by h r qs) ≡ (r == j || has j qs)
unfolding insert_by
has-insert_by h r j [] = refl
has-insert_by h r j (q ∷ qs) = ground (arith, has-insert_by h r j qs)

pub has-sort_counters : (h : Heap) (j : ℕ) (rs : List ℕ) → has j (sort_counters h rs) ≡ has j rs
unfolding sort_counters
has-sort_counters h j [] = refl
has-sort_counters h j (r ∷ rs) =
    ground (arith, has-insert_by h r j (sort_counters h rs), has-sort_counters h j rs)

NoTwice-insert_by :
    (h : Heap) (r : ℕ) (qs : List ℕ) → has r qs ≡ false → NoTwice qs → NoTwice (insert_by h r qs)
unfolding insert_by
NoTwice-insert_by h r [] e d = (refl, tt)
NoTwice-insert_by h r (q ∷ qs) e d = elim (Bool-cases (gt64 (h r).limit (h q).limit)) [
  | inl p ↦ rw p (
    ground (arith, has-insert_by h r q qs, ==_iff r q, ==_iff q r),
    NoTwice-insert_by h r qs (ground arith) d.1,
  )
  | inr p ↦ rw p (e, d)
]

NoTwice-sort_counters : (h : Heap) (rs : List ℕ) → NoTwice rs → NoTwice (sort_counters h rs)
unfolding sort_counters
NoTwice-sort_counters h [] d = tt
NoTwice-sort_counters h (r ∷ rs) d =
    NoTwice-insert_by h r (sort_counters h rs) (has-sort_counters h r rs ∙ d.0)
      (NoTwice-sort_counters h rs d.1)

Below-insert_by :
    (h : Heap) (m r : ℕ) (qs : List ℕ) → r < m → Below m qs → Below m (insert_by h r qs)
unfolding insert_by
Below-insert_by h m r [] p b = (p, tt)
Below-insert_by h m r (q ∷ qs) p b = elim (Bool-cases (gt64 (h r).limit (h q).limit)) [
  | inl e ↦ rw e (b.0, Below-insert_by h m r qs p b.1)
  | inr e ↦ rw e (p, b)
]

Below-sort_counters : (h : Heap) (m : ℕ) (rs : List ℕ) → Below m rs → Below m (sort_counters h rs)
unfolding sort_counters
Below-sort_counters h m [] b = tt
Below-sort_counters h m (r ∷ rs) b =
    Below-insert_by h m r (sort_counters h rs) b.0 (Below-sort_counters h m rs b.1)

is_empty-insert_by : (h : Heap) (r : ℕ) (qs : List ℕ) → is_empty (insert_by h r qs) ≡ false
unfolding insert_by
is_empty-insert_by h r [] = refl
is_empty-insert_by h r (q ∷ qs) = ground arith

is_empty-sort_counters : (h : Heap) (rs : List ℕ) → is_empty (sort_counters h rs) ≡ is_empty rs
unfolding sort_counters
is_empty-sort_counters h [] = refl
is_empty-sort_counters h (r ∷ rs) = is_empty-insert_by h r (sort_counters h rs)

pub IsGroup-sort_counters :
    (h : Heap) (m : ℕ) (rs : List ℕ)
    → is_empty rs ≡ false
    → NoTwice rs
    → Below m rs
    → IsGroup m (sort_counters h rs)
IsGroup-sort_counters h m rs e d b = record {
  filled = is_empty-sort_counters h rs ∙ e;
  apart = NoTwice-sort_counters h rs d;
  below = Below-sort_counters h m rs b;
}
