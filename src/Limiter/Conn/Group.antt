-- ===== src/Limiter/Conn/Group.antt =====
-- A group of counters is all or nothing.
use gost_x.Prelude.{
  ℕ, ◌+◌, ◌<◌, ◌≡◌, refl, ◌∙◌, ap, fun_ext, subst, Bool, true, false, ◌&&◌, not, List, [], ◌∷◌,
  take, length, All, ltb, ◌==◌, ==_iff, ==_refl, Bool-cases, inl, inr, if◌then◌else◌, arith,
}
use gost_x.Int64.{neg64, gt64}
use gost_x.Limiter.Conn.{Limiter, Heap, allow, write, allow_at, allow_until, take_back, group_allow}
use gost_x.Limiter.Conn.Cell.{half, IsWithin, plus, fits, allow_grant, allow_release}
use gost_x.Limiter.Conn.Bump.{
  has, NoTwice, bump, room, prefix, Within, prefix-write, room-write, Within-write, has-prefix,
  take-prefix, write_self, bump-write, bump-empty,
}

allow_at-fits :
    (h : Heap) (r n : ℕ)
    → IsWithin (h r)
    → 0 < n
    → n < half
    → fits (h r) n ≡ true
    → allow_at h r n ≡ (write h r (plus (h r) n), true)
unfolding allow_at
allow_at-fits h r n w p q e = ground (arith, allow_grant (h r) n w p q)

allow_at_full :
    (h : Heap) (r n : ℕ)
    → IsWithin (h r)
    → 0 < n
    → n < half
    → fits (h r) n ≡ false
    → allow_at h r n ≡ (h, false)
unfolding allow_at
allow_at_full h r n w p q e = ground (arith, allow_grant (h r) n w p q, write_self h r)

-- Where the first loop stops.
allow_until_stops :
    (h : Heap) (rs : List ℕ) (n i : ℕ)
    → NoTwice rs
    → Within h rs
    → 0 < n
    → n < half
    → allow_until h rs n i true
      ≡ (bump h (prefix h rs n) n, room h rs n, i + length (prefix h rs n))
unfolding allow_until prefix
allow_until_stops h [] n i d w p q = ground (arith, bump-empty h n)
allow_until_stops h (r ∷ rs) n i d w p q = elim (Bool-cases (fits (h r) n)) [
  | inl e ↦ ground (
    arith,
    allow_at-fits h r n w.0 p q e,
    allow_until_stops (write h r (plus (h r) n)) rs n (i + 1) d.1 (Within-write h r _ rs d.0 w.1) p
        q,
    prefix-write h r (plus (h r) n) rs n d.0,
    room-write h r (plus (h r) n) rs n d.0,
    bump-write h r (prefix h rs n) n (has-prefix h r rs n d.0),
  )
  | inr e ↦ ground (arith, allow_at_full h r n w.0 p q e, bump-empty h n)
]

NoTwice-prefix : (h : Heap) (rs : List ℕ) (n : ℕ) → NoTwice rs → NoTwice (prefix h rs n)
unfolding prefix
NoTwice-prefix h [] n d = tt
NoTwice-prefix h (r ∷ rs) n d = elim (Bool-cases (fits (h r) n)) [
  | inl e ↦ rw (e, NoTwice) (has-prefix h r rs n d.0, NoTwice-prefix h rs n d.1)
  | inr e ↦ rw (e, NoTwice) tt
]

-- Every counter of a group has room and is within its limit.
Roomy : Heap → List ℕ → ℕ → Type 0
Roomy h rs n = All (λ r. IsWithin (h r) × (fits (h r) n ≡ true)) rs

Roomy-prefix : (h : Heap) (rs : List ℕ) (n : ℕ) → Within h rs → Roomy h (prefix h rs n) n
unfolding prefix Roomy
Roomy-prefix h [] n w = tt
Roomy-prefix h (r ∷ rs) n w = elim (Bool-cases (fits (h r) n)) [
  | inl e ↦ rw (e, All) ((w.0, e), Roomy-prefix h rs n w.1)
  | inr e ↦ rw (e, All) tt
]

bump_first : (h : Heap) (r : ℕ) (rs : List ℕ) (n : ℕ) → bump h (r ∷ rs) n r ≡ plus (h r) n
bump_first h r rs n = ground (arith, ==_refl r)

release_plus :
    (l : Limiter) (n : ℕ) → IsWithin l → fits l n ≡ true → allow (plus l n) (neg64 n) ≡ (l, true)
release_plus l n w f =
    allow_release (plus l n) n (record { small = w.small; bounded = ground arith }) (omega arith)
    ∙ ground arith

write_bumped :
    (h : Heap) (r : ℕ) (rs : List ℕ) (n : ℕ)
    → has r rs ≡ false
    → write (bump h (r ∷ rs) n) r (h r) ≡ bump h rs n
unfolding write
write_bumped h r rs n e = fun_ext λ j. elim (Bool-cases (r == j)) [
  | inl q ↦
      ground (arith, ap h ((==_iff r j).0 q), subst (λ k. has k rs ≡ false) ((==_iff r j).0 q) e)
  | inr q ↦ rw q
]

release_bumped :
    (h : Heap) (r : ℕ) (rs : List ℕ) (n : ℕ)
    → has r rs ≡ false
    → IsWithin (h r)
    → fits (h r) n ≡ true
    → allow_at (bump h (r ∷ rs) n) r (neg64 n) ≡ (bump h rs n, true)
unfolding allow_at
release_bumped h r rs n e w f =
    rw (bump_first h r rs n, release_plus (h r) n w f)
      (ap (λ g. (g, true)) (write_bumped h r rs n e))

-- The second loop puts back what the first took.
take_back-bump :
    (h : Heap) (rs : List ℕ) (n : ℕ) → NoTwice rs → Roomy h rs n → take_back (bump h rs n) rs n ≡ h
unfolding take_back Roomy
take_back-bump h [] n d w = bump-empty h n
take_back-bump h (r ∷ rs) n d w =
    ap (λ x. take_back x.0 rs n) (release_bumped h r rs n d.0 w.0.0 w.0.1)
    ∙ take_back-bump h rs n d.1 w.1

gt64_pos : (n : ℕ) → 0 < n → n < half → gt64 n 0 ≡ true
unfolding gt64
gt64_pos n p q = ground arith

prefix-room : (h : Heap) (rs : List ℕ) (n : ℕ) → room h rs n ≡ true → prefix h rs n ≡ rs
unfolding prefix
prefix-room h [] n e = refl
prefix-room h (r ∷ rs) n e = ground (arith, prefix-room h rs n)

-- What group_allow does behind the first loop.
finish : List ℕ → ℕ → Heap × Bool × ℕ → Heap × Bool
finish rs n (h', b, i) =
    (if (not b && ltb 0 i) && gt64 n 0 then take_back h' (take i rs) n else h', b)

group_allow-finish :
    (h : Heap) (r : ℕ) (rs : List ℕ) (n : ℕ)
    → group_allow h (r ∷ rs) n ≡ finish (r ∷ rs) n (allow_until h (r ∷ rs) n 0 true)
unfolding group_allow finish allow_until
group_allow-finish h r rs n = refl

finish_refused :
    (h : Heap) (rs ps : List ℕ) (n : ℕ)
    → take (length ps) rs ≡ ps
    → NoTwice ps
    → Roomy h ps n
    → 0 < n
    → n < half
    → finish rs n (bump h ps n, false, 0 + length ps) ≡ (h, false)
unfolding finish
finish_refused h rs [] n e d w p q = ground (arith, bump-empty h n)
finish_refused h rs (r ∷ ps) n e d w p q =
    ground (arith, gt64_pos n p q, take_back-bump h (r ∷ ps) n d w, e)

-- A request of n slots, 0 < n < 2 ^ 62, to a group of at least one counter, none twice, whose
-- counters are within limits below 2 ^ 62: it is granted exactly if every counter has room for n
-- more, and then every counter of the group has n more and no other counter has changed; if it is
-- refused, no counter at all has changed.
pub group_allow-bump :
    (h : Heap) (r : ℕ) (rs : List ℕ) (n : ℕ)
    → NoTwice (r ∷ rs)
    → All (λ q. IsWithin (h q)) (r ∷ rs)
    → 0 < n
    → n < half
    → group_allow h (r ∷ rs) n
      ≡ (if room h (r ∷ rs) n then (bump h (r ∷ rs) n, true) else (h, false))
unfolding finish
group_allow-bump h r rs n d w p q = elim (Bool-cases (room h (r ∷ rs) n)) [
  | inl e ↦
      stop
      ∙ ap (λ b. finish (r ∷ rs) n (bump h ps n, b, 0 + length ps)) e
      ∙ ap (λ qs. (bump h qs n, true)) (prefix-room h (r ∷ rs) n e)
      ∙ ground arith
  | inr e ↦
      stop
      ∙ ap (λ b. finish (r ∷ rs) n (bump h ps n, b, 0 + length ps)) e
      ∙ finish_refused h (r ∷ rs) ps n (take-prefix h (r ∷ rs) n) (NoTwice-prefix h (r ∷ rs) n d)
          (Roomy-prefix h (r ∷ rs) n w) p q
      ∙ ground arith
]
  where
    ps : List ℕ
    ps = prefix h (r ∷ rs) n

    stop :
        group_allow h (r ∷ rs) n ≡ finish (r ∷ rs) n (bump h ps n, room h (r ∷ rs) n, 0 + length ps)
    stop =
        group_allow-finish h r rs n
        ∙ ap (finish (r ∷ rs) n) (allow_until_stops h (r ∷ rs) n 0 d w p q)
