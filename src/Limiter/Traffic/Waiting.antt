-- ===== src/Limiter/Traffic/Waiting.antt =====
-- limiter/traffic/limiter.go: Wait of a limiter and of a group. Only how many bytes may pass is
-- modelled, not the time that golang.org/x/time/rate takes for it.
use gost_x.Prelude.{
  ℕ, ◌<◌, ◌≤◌, ◌≡◌, Bool, List, [], ◌∷◌, All, ap, not, all, leb, arith, ltb, if◌then◌else◌,
}
use gost_x.Int64.{gt64, sign_bit}

-- Wait of a limiter with the rate `r`, which is also its burst.
unfoldable pub wait_one : ℕ → ℕ → ℕ
wait_one r n = if gt64 n r then r else n

-- Wait of a group.
unfoldable pub group_wait : List ℕ → ℕ → ℕ
group_wait [] n = n
group_wait (r ∷ rs) n = let v = wait_one r n in group_wait rs (if gt64 n v then v else n)

-- Limit of a group; Set does nothing.
unfoldable pub group_limit : List ℕ → ℕ
group_limit [] = 0
group_limit (r ∷ rs) = r

-- A positive rate, as an int.
abbrev pub IsRate : ℕ → Type 0
IsRate r = (0 < r) × (r < sign_bit)

pub gt64_small : (a b : ℕ) → a < sign_bit → b < sign_bit → gt64 a b ≡ ltb b a
unfolding gt64
gt64_small a b p q = ground arith

wait_one-bounds :
    (r n : ℕ)
    → IsRate r
    → 0 < n
    → n < sign_bit
    → (0 < wait_one r n) × (wait_one r n ≤ n) × (wait_one r n ≤ r)
unfolding wait_one
wait_one-bounds r n h p q = ground (arith, gt64_small n r q h.1)

-- What Wait promises: some of the bytes may pass, and no more than asked for.
pub record IsWait (wait : ℕ → ℕ) : Type 0 where
  pub positive : (n : ℕ) → 0 < n → n < sign_bit → 0 < wait n
  pub at_most : (n : ℕ) → n < sign_bit → wait n ≤ n

wait_step :
    (r n : ℕ)
    → IsRate r
    → n < sign_bit
    → (if gt64 n (wait_one r n) then wait_one r n else n) ≡ (if ltb r n then r else n)
unfolding wait_one
wait_step r n h q = ground (arith, gt64_small n r q h.1)

pub group_wait-cons :
    (r n : ℕ) (rs : List ℕ)
    → IsRate r
    → n < sign_bit
    → group_wait (r ∷ rs) n ≡ group_wait rs (if ltb r n then r else n)
unfolding group_wait
group_wait-cons r n rs h q = ap (group_wait rs) (wait_step r n h q)

pub group_wait-at_most : (g : List ℕ) → All IsRate g → (n : ℕ) → n < sign_bit → group_wait g n ≤ n
unfolding group_wait
group_wait-at_most [] h n q = omega arith
group_wait-at_most (r ∷ rs) h n q = ground (
  arith,
  group_wait-cons r n rs h.0 q,
  group_wait-at_most rs h.1 r h.0.1,
  group_wait-at_most rs h.1 n q,
)

group_wait-positive :
    (g : List ℕ) → All IsRate g → (n : ℕ) → 0 < n → n < sign_bit → 0 < group_wait g n
unfolding group_wait
group_wait-positive [] h n p q = p
group_wait-positive (r ∷ rs) h n p q = ground (
  arith,
  group_wait-cons r n rs h.0 q,
  group_wait-positive rs h.1 r h.0.0 h.0.1,
  group_wait-positive rs h.1 n p q,
)

pub group_wait-IsWait : (g : List ℕ) → All IsRate g → IsWait (group_wait g)
group_wait-IsWait g h = record {
  positive = group_wait-positive g h;
  at_most = group_wait-at_most g h;
}

-- No rate of the group is less than `n`.
abbrev pub fits : ℕ → List ℕ → Bool
fits n g = all (λ r. leb n r) g

-- Wait lets all bytes pass exactly if they are no more than each rate of the group.
pub group_wait-fits :
    (g : List ℕ) → All IsRate g → (n : ℕ) → n < sign_bit → ltb (group_wait g n) n ≡ not (fits n g)
unfolding group_wait
group_wait-fits [] h n q = ground arith
group_wait-fits (r ∷ rs) h n q = ground (
  arith,
  group_wait-cons r n rs h.0 q,
  group_wait-at_most rs h.1 r h.0.1,
  group_wait-fits rs h.1 n q,
)
