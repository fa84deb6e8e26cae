-- ===== src/Limiter/Rate/Charged.antt =====
-- What Allow of a group of rate limiters says, and what it charges.
use gost_x.Prelude.{
  ℕ, ◌≡◌, refl, ◌∙◌, Bool, true, false, not, ◌&&◌, Bool-cases, inl, inr, List, [], ◌∷◌,
  if◌then◌else◌, ◌==◌, ==_refl, ==_iff, subst, arith,
}
use gost_x.Limiter.Conn.Bump.{has, NoTwice}
use gost_x.Limiter.Rate.{RateLib, RLimiter, write, allow_at, allow_all, group_allow}

and_later : (v b a : Bool) → ((if not v then false else b) && a) ≡ (b && (v && a))
and_later true b a = refl
and_later false true a = refl
and_later false false a = refl

module _ (rate : RateLib) (times : ℕ → ℕ) (n : ℕ) where
  -- The limiter after it was asked for n requests, and all of them say yes.
  abbrev pub charged : (ℕ → RLimiter rate) → ℕ → RLimiter rate
  charged h r = record { limit = (h r).limit; bucket = (rate.allow_n (times r) n (h r).bucket).1 }

  abbrev pub all_allow : (ℕ → RLimiter rate) → List ℕ → Bool
  all_allow h [] = true
  all_allow h (r ∷ rs) = (rate.allow_n (times r) n (h r).bucket).0 && all_allow h rs

  write_other :
      (h : ℕ → RLimiter rate) (q j : ℕ) (l : RLimiter rate)
      → (q == j) ≡ false
      → write rate h q l j ≡ h j
  unfolding write
  write_other h q j l e = ground arith

  write_self : (h : ℕ → RLimiter rate) (q : ℕ) (l : RLimiter rate) → write rate h q l q ≡ l
  unfolding write
  write_self h q l = rw (==_refl q) refl

  all_allow-write :
      (h : ℕ → RLimiter rate) (q : ℕ) (l : RLimiter rate) (rs : List ℕ)
      → has q rs ≡ false
      → all_allow (write rate h q l) rs ≡ all_allow h rs
  all_allow-write h q l [] e = refl
  all_allow-write h q l (r ∷ rs) e =
      let other = write_other h q r l (ground (arith, e)) in
      rw (other, all_allow-write h q l rs (ground (arith, e))) refl

  charged-write :
      (h : ℕ → RLimiter rate) (q j : ℕ) (l : RLimiter rate)
      → (q == j) ≡ false
      → charged (write rate h q l) j ≡ charged h j
  charged-write h q j l e = rw (write_other h q j l e) refl

  if_has-write :
      (h : ℕ → RLimiter rate) (r j : ℕ) (rs : List ℕ)
      → has r rs ≡ false
      → (if has j rs
          then charged (write rate h r (charged h r)) j
          else write rate h r (charged h r) j)
        ≡ (if has j (r ∷ rs) then charged h j else h j)
  if_has-write h r j rs d = elim (Bool-cases (r == j)) [
    | inl e ↦
        subst
          (λ i.
            (if has i rs
              then charged (write rate h r (charged h r)) i
              else write rate h r (charged h r) i)
            ≡ (if has i (r ∷ rs) then charged h i else h i))
          ((==_iff r j).0 e) (rw (d, ==_refl r, write_self h r (charged h r)) refl)
    | inr e ↦ rw (charged-write h r j (charged h r) e, write_other h r j (charged h r) e, e) refl
  ]

  allow_all-charged :
      (rs : List ℕ) (b : Bool) (h : ℕ → RLimiter rate)
      → NoTwice rs
      → ((allow_all rate times n rs b h).0 ≡ (b && all_allow h rs))
        × ((j : ℕ) → (allow_all rate times n rs b h).1 j ≡ (if has j rs then charged h j else h j))
  unfolding allow_all allow_at
  allow_all-charged [] b h d = (ground arith, λ j. refl)
  allow_all-charged (r ∷ rs) b h d =
      let later =
        allow_all-charged rs (if not (rate.allow_n (times r) n (h r).bucket).0 then false else b)
          (write rate h r (charged h r)) d.1 in
      (
        later.0
            ∙ rw (all_allow-write h r (charged h r) rs d.0)
                (and_later (rate.allow_n (times r) n (h r).bucket).0 b (all_allow h rs)),
        λ j. later.1 j ∙ if_has-write h r j rs d.0,
      )

  -- Allow of a group grants n requests exactly if each limiter of the group would grant them alone; in
  -- either case every limiter of the group is charged as if it had been asked alone, and no other is,
  -- for groups in which none stands twice.
  pub group_allow-charged :
      (rs : List ℕ) (h : ℕ → RLimiter rate)
      → NoTwice rs
      → ((group_allow rate times n rs h).0 ≡ all_allow h rs)
        × ((j : ℕ) → (group_allow rate times n rs h).1 j ≡ (if has j rs then charged h j else h j))
  unfolding group_allow
  group_allow-charged rs h d = allow_all-charged rs true h d
