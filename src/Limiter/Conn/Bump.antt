-- ===== src/Limiter/Conn/Bump.antt =====
-- The heap with more in some counters, and the counters in front of the first full one.
use gost_x.Prelude.{
  ℕ, ◌≡◌, refl, sym, ap, fun_ext, subst, Bool, false, List, [], ◌∷◌, any, all, take, length, All,
  ◌==◌, ==_iff, Bool-cases, inl, inr, if◌then◌else◌, arith,
}
use gost_x.Limiter.Conn.{Limiter, Heap, write}
use gost_x.Limiter.Conn.Cell.{IsWithin, plus, fits}

abbrev pub has : ℕ → List ℕ → Bool
has j rs = any (λ r. r == j) rs

-- No counter stands twice in a group.
abbrev pub NoTwice : List ℕ → Type 0
NoTwice [] = Unit
NoTwice (r ∷ rs) = (has r rs ≡ false) × NoTwice rs

-- The heap with n more in each counter of a group.
abbrev pub bump : Heap → List ℕ → ℕ → Heap
bump h rs n j = if has j rs then plus (h j) n else h j

abbrev pub room : Heap → List ℕ → ℕ → Bool
room h rs n = all (λ r. fits (h r) n) rs

-- The counters in front of the first that has no room.
unfoldable pub prefix : Heap → List ℕ → ℕ → List ℕ
prefix h [] n = []
prefix h (r ∷ rs) n = let rest = prefix h rs n in if fits (h r) n then r ∷ rest else []

abbrev pub Within : Heap → List ℕ → Type 0
Within h rs = All (λ r. IsWithin (h r)) rs

pub write_ne : (h : Heap) (r j : ℕ) (l : Limiter) → (r == j) ≡ false → write h r l j ≡ h j
unfolding write
write_ne h r j l e = rw e

pub prefix-write :
    (h : Heap) (r : ℕ) (l : Limiter) (rs : List ℕ) (n : ℕ)
    → has r rs ≡ false
    → prefix (write h r l) rs n ≡ prefix h rs n
unfolding prefix
prefix-write h r l [] n e = refl
prefix-write h r l (q ∷ rs) n e = ground (arith, prefix-write h r l rs n, write_ne h r q l)

pub room-write :
    (h : Heap) (r : ℕ) (l : Limiter) (rs : List ℕ) (n : ℕ)
    → has r rs ≡ false
    → room (write h r l) rs n ≡ room h rs n
room-write h r l [] n e = refl
room-write h r l (q ∷ rs) n e = ground (arith, room-write h r l rs n, write_ne h r q l)

pub Within-write :
    (h : Heap) (r : ℕ) (l : Limiter) (rs : List ℕ)
    → has r rs ≡ false
    → Within h rs
    → Within (write h r l) rs
Within-write h r l [] e w = tt
Within-write h r l (q ∷ rs) e w = (
  subst IsWithin (sym (write_ne h r q l (ground arith))) w.0,
  Within-write h r l rs (ground arith) w.1,
)

pub has-prefix :
    (h : Heap) (r : ℕ) (rs : List ℕ) (n : ℕ) → has r rs ≡ false → has r (prefix h rs n) ≡ false
unfolding prefix
has-prefix h r [] n e = refl
has-prefix h r (q ∷ rs) n e = ground (arith, has-prefix h r rs n)

pub take-prefix :
    (h : Heap) (rs : List ℕ) (n : ℕ) → take (length (prefix h rs n)) rs ≡ prefix h rs n
unfolding prefix
take-prefix h [] n = refl
take-prefix h (r ∷ rs) n = ground (arith, take-prefix h rs n)

pub write_self : (h : Heap) (r : ℕ) → write h r (h r) ≡ h
unfolding write
write_self h r =
    fun_ext
      λ j. elim (Bool-cases (r == j)) [ inl e ↦ rw e (ap h ((==_iff r j).0 e)) | inr e ↦ rw e ]

pub bump-write :
    (h : Heap) (r : ℕ) (rs : List ℕ) (n : ℕ)
    → has r rs ≡ false
    → bump (write h r (plus (h r) n)) rs n ≡ bump h (r ∷ rs) n
unfolding write
bump-write h r rs n e = fun_ext λ j. elim (Bool-cases (r == j)) [
  | inl q ↦ ground (arith, subst (λ k. has k rs ≡ false) ((==_iff r j).0 q) e)
  | inr q ↦ rw q
]

pub bump-empty : (h : Heap) (n : ℕ) → bump h [] n ≡ h
bump-empty h n = fun_ext λ j. refl
