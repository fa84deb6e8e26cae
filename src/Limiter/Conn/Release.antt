-- ===== src/Limiter/Conn/Release.antt =====
-- A group of counters gives a place back.
use gost_x.Prelude.{
  ℕ, ◌+◌, ◌-◌, ◌≤◌, ◌≡◌, refl, sym, ◌∙◌, ap, fun_ext, subst, Bool, true, false, ◌&&◌, not, List, [],
  ◌∷◌, All, ltb, ◌==◌, ==_iff, Bool-cases, inl, inr, if◌then◌else◌, take, length, is_empty, arith,
}
use gost_x.Int64.{neg64, gt64}
use gost_x.Limiter.Conn.{Limiter, Heap, write, allow_at, allow_until, take_back, group_allow}
use gost_x.Limiter.Conn.Cell.{allow_release}
use gost_x.Limiter.Conn.Bump.{has, NoTwice, Within, write_ne, Within-write}

abbrev pub minus : Limiter → ℕ → Limiter
minus l n = record l { current = l.current - n }

-- The heap with n less in each counter of a group.
abbrev pub lower : Heap → List ℕ → ℕ → Heap
lower h rs n j = if has j rs then minus (h j) n else h j

-- Every counter of a group has granted n.
abbrev pub Granted : Heap → List ℕ → ℕ → Type 0
Granted h rs n = All (λ r. n ≤ (h r).current) rs

lower-write :
    (h : Heap) (r : ℕ) (rs : List ℕ) (n : ℕ)
    → has r rs ≡ false
    → lower (write h r (minus (h r) n)) rs n ≡ lower h (r ∷ rs) n
unfolding write
lower-write h r rs n e = fun_ext λ j. elim (Bool-cases (r == j)) [
  | inl q ↦ ground (arith, subst (λ k. has k rs ≡ false) ((==_iff r j).0 q) e)
  | inr q ↦ rw q
]

Granted-write :
    (h : Heap) (r : ℕ) (l : Limiter) (rs : List ℕ) (n : ℕ)
    → has r rs ≡ false
    → Granted h rs n
    → Granted (write h r l) rs n
Granted-write h r l [] n e g = tt
Granted-write h r l (q ∷ rs) n e g = (
  subst (λ c. n ≤ c.current) (sym (write_ne h r q l (ground arith))) g.0,
  Granted-write h r l rs n (ground arith) g.1,
)

releases :
    (h : Heap) (rs : List ℕ) (n i : ℕ)
    → NoTwice rs
    → Within h rs
    → Granted h rs n
    → allow_until h rs (neg64 n) i true ≡ (lower h rs n, true, i + length rs)
unfolding allow_until allow_at
releases h [] n i d w g = ground arith
releases h (r ∷ rs) n i d w g = ground (
  arith,
  allow_release (h r) n w.0 g.0,
  releases (write h r (minus (h r) n)) rs n (i + 1) d.1 (Within-write h r _ rs d.0 w.1)
      (Granted-write h r _ rs n d.0 g.1),
  lower-write h r rs n d.0,
)

after : List ℕ → ℕ → Heap × Bool × ℕ → Heap × Bool
after rs n (h', b, i) =
    (if (not b && ltb 0 i) && gt64 n 0 then take_back h' (take i rs) n else h', b)

group_allow-after :
    (h : Heap) (r : ℕ) (rs : List ℕ) (n : ℕ)
    → group_allow h (r ∷ rs) n ≡ after (r ∷ rs) n (allow_until h (r ∷ rs) n 0 true)
unfolding group_allow after allow_until
group_allow-after h r rs n = refl

-- A group of at least one counter, none twice, that has granted n, gives n back on each of them.
pub group_allow-lower :
    (h : Heap) (rs : List ℕ) (n : ℕ)
    → is_empty rs ≡ false
    → NoTwice rs
    → Within h rs
    → Granted h rs n
    → group_allow h rs (neg64 n) ≡ (lower h rs n, true)
unfolding after
group_allow-lower h [] n e d w g = absurd (ground arith)
group_allow-lower h (r ∷ rs) n e d w g =
    group_allow-after h r rs (neg64 n)
    ∙ ap (after (r ∷ rs) (neg64 n)) (releases h (r ∷ rs) n 0 d w g)
