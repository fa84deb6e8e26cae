-- ===== src/Limiter/Table/Cells.antt =====
-- The counters of the table against the open connections, while counters are added.
use gost_x.Prelude.{
  ℕ, ◌+◌, ◌<◌, ◌≤◌, ◌≡◌, refl, sym, ap, subst, true, false, Option, none, some, List, [], ◌∷◌, All,
  ltb, ◌==◌, ==_iff, ==_refl, Bool-cases, ◌⊎◌, inl, inr, if◌then◌else◌, is_empty, arith,
}
use gost_x.Int64.{gt64}
use gost_x.Limiter.Conn.{new_limiter, write}
use gost_x.Limiter.Conn.Cell.{half, IsWithin}
use gost_x.Limiter.Conn.Bump.{has, NoTwice, write_ne}
use gost_x.Limiter.Table.{Store, alloc, Generator, each, single, take_from}

-- The number of open connections that hold a place of a counter.
unfoldable pub count : ℕ → List (List ℕ) → ℕ
count r [] = 0
count r (rs ∷ conns) = (if has r rs then 1 else 0) + count r conns

abbrev pub Below : ℕ → List ℕ → Type 0
Below m rs = All (λ r. r < m) rs

-- A group of counters below m.
pub record IsGroup (m : ℕ) (rs : List ℕ) : Type 0 where
  pub filled : is_empty rs ≡ false
  pub apart : NoTwice rs
  pub below : Below m rs

-- Every counter is within its limit, and counts the open connections that hold it.
abbrev pub Counted : List (List ℕ) → Store → Type 0
Counted conns st =
    (r : ℕ) → r < st.next → IsWithin (st.cells r) × ((st.cells r).current ≡ count r conns)

pub Below-mono : (m m' : ℕ) (rs : List ℕ) → m ≤ m' → Below m rs → Below m' rs
Below-mono m m' [] p h = tt
Below-mono m m' (r ∷ rs) p h = (omega arith, Below-mono m m' rs p h.1)

pub IsGroup-mono :
    (m m' : ℕ) (conns : List (List ℕ)) → m ≤ m' → All (IsGroup m) conns → All (IsGroup m') conns
IsGroup-mono m m' [] p h = tt
IsGroup-mono m m' (rs ∷ conns) p h = (
  record { filled = h.0.filled; apart = h.0.apart; below = Below-mono m m' rs p h.0.below },
  IsGroup-mono m m' conns p h.1,
)

has-Below : (m : ℕ) (rs : List ℕ) → Below m rs → has m rs ≡ false
has-Below m [] h = refl
has-Below m (r ∷ rs) h = ground (arith, has-Below m rs h.1, ==_iff r m)

pub has_lt : (m r : ℕ) (rs : List ℕ) → Below m rs → has r rs ≡ true → r < m
has_lt m r [] h e = absurd (ground arith)
has_lt m r (q ∷ rs) h e = elim (Bool-cases (q == r)) [
  | inl p ↦ subst (λ i. i < m) ((==_iff q r).0 p) h.0
  | inr p ↦ has_lt m r rs h.1 (ground arith)
]

count_fresh : (m : ℕ) (conns : List (List ℕ)) → All (IsGroup m) conns → count m conns ≡ 0
unfolding count
count_fresh m [] h = refl
count_fresh m (rs ∷ conns) h = ground (arith, has-Below m rs h.0.below, count_fresh m conns h.1)

alloc_old : (st : Store) (n r : ℕ) → r < st.next → (alloc st n).cells r ≡ st.cells r
unfolding alloc
alloc_old st n r h = write_ne st.cells st.next r (new_limiter n) (ground (arith, ==_iff st.next r))

alloc_new : (st : Store) (n : ℕ) → (alloc st n).cells st.next ≡ new_limiter n
unfolding alloc write
alloc_new st n = rw (==_refl st.next)

pub next-alloc : (st : Store) (n : ℕ) → (alloc st n).next ≡ st.next + 1
unfolding alloc
next-alloc st n = refl

pub Counted-alloc :
    (conns : List (List ℕ)) (st : Store) (n : ℕ)
    → Counted conns st
    → All (IsGroup st.next) conns
    → n < half
    → Counted conns (alloc st n)
Counted-alloc conns st n c o p r q = elim (Bool-cases (ltb r st.next)) [
  | inl e ↦
      subst (λ l. IsWithin l × (l.current ≡ count r conns)) (sym (alloc_old st n r (ground arith)))
        (c r (ground arith))
  | inr e ↦
      subst
        (λ i. IsWithin ((alloc st n).cells i) × (((alloc st n).cells i).current ≡ count i conns))
        (newest (ground arith))
        (subst (λ l. IsWithin l × (l.current ≡ count st.next conns)) (sym (alloc_new st n))
          (record { small = p; bounded = omega arith }, sym (count_fresh st.next conns o)))
]
  where
    newest : (st.next ≤ r) → st.next ≡ r
    newest e = omega (arith, next-alloc st n)

-- What a generator may be: its limit is small, its counter is there.
abbrev pub Sized : ℕ → Generator → Type 0
Sized m (each n) = gt64 n 0 ≡ true → n < half
Sized m (single none) = Unit
Sized m (single (some r)) = r < m

abbrev pub SizedOption : ℕ → Option Generator → Type 0
SizedOption m none = Unit
SizedOption m (some g) = Sized m g

-- What take_from leaves.
pub record IsTaken (conns : List (List ℕ)) (st : Store) (g : Option Generator) (w : List ℕ × Store)
    : Type 0 where
  pub counted : Counted conns w.1
  pub grows : st.next ≤ w.1.next
  pub below : Below w.1.next w.0
  pub apart : NoTwice w.0
  pub source : (r : ℕ) → has r w.0 ≡ true → (st.next ≤ r) ⊎ (g ≡ some (single (some r)))

pub take_from-IsTaken :
    (conns : List (List ℕ)) (st : Store) (g : Option Generator)
    → Counted conns st
    → All (IsGroup st.next) conns
    → SizedOption st.next g
    → IsTaken conns st g (take_from g st)
unfolding take_from
take_from-IsTaken conns st none c o s = record {
  counted = c;
  grows = omega arith;
  below = tt;
  apart = tt;
  source = λ r e. cc;
}
take_from-IsTaken conns st (some (each n)) c o s = elim (Bool-cases (gt64 n 0)) [
  | inl e ↦ rw e (record {
    counted = Counted-alloc conns st n c o (s e);
    grows = omega (arith, next-alloc st n);
    below = (omega (arith, next-alloc st n), tt);
    apart = (refl, tt);
    source = λ r q. inl (ground (arith, ==_iff st.next r));
  })
  | inr e ↦
      rw e (record { counted = c; grows = omega arith; below = tt; apart = tt; source = λ r e. cc })
]
take_from-IsTaken conns st (some (single none)) c o s = record {
  counted = c;
  grows = omega arith;
  below = tt;
  apart = tt;
  source = λ r e. cc;
}
take_from-IsTaken conns st (some (single (some q))) c o s = record {
  counted = c;
  grows = omega arith;
  below = (s, tt);
  apart = (refl, tt);
  source = λ r e. inr (ap (λ i. some (single (some i))) ((==_iff q r).0 (ground arith)));
}
