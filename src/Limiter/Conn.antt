-- ===== src/Limiter/Conn.antt =====
-- limiter/conn/limiter.go: the counter of connections and the group of counters. Counters are shared
-- between groups, so they are cells of a heap and a group has references to them.
pub mod Cell
pub mod Bump
pub mod Group
pub mod Release
mod Tests
use gost_x.Prelude.{
  ℕ, zero, suc, ◌+◌, Bool, true, false, ◌&&◌, not, List, [], ◌∷◌, take, ltb, ◌==◌, if◌then◌else◌,
}
use gost_x.Int64.{add64, neg64, gt64}

pub record Limiter : Type 0 where
  pub limit : ℕ
  pub current : ℕ

abbrev pub new_limiter : ℕ → Limiter
new_limiter n = record { limit = n; current = 0 }

-- (*llimiter).Allow: the addition comes first, and is taken back if it went over the limit.
unfoldable pub allow : Limiter → ℕ → Limiter × Bool
allow l n =
    let c = add64 l.current n in
    if gt64 c l.limit
    then (record l { current = if gt64 n 0 then add64 c (neg64 n) else c }, false)
    else (record l { current = c }, true)

-- The heap of counters.
abbrev pub Heap : Type 0
Heap = ℕ → Limiter

unfoldable pub write : Heap → ℕ → Limiter → Heap
write h r l j = if r == j then l else h j

-- Allow on the counter behind a reference.
unfoldable pub allow_at : Heap → ℕ → ℕ → Heap × Bool
allow_at h r n = (write h r (allow (h r) n).0, (allow (h r) n).1)

-- The first loop of (*limiterGroup).Allow: the heap, `b`, and the place `i` of the refusal.
unfoldable pub allow_until : Heap → List ℕ → ℕ → ℕ → Bool → Heap × Bool × ℕ
allow_until h [] n i b = (h, b, i)
allow_until h (r ∷ rs) n i b =
    let h' = (allow_at h r n).0 in
    let rest = allow_until h' rs n (i + 1) true in
    if (allow_at h r n).1 then rest else (h', false, i)

-- The second loop: the counters in front of the refusal.
unfoldable pub take_back : Heap → List ℕ → ℕ → Heap
take_back h [] n = h
take_back h (r ∷ rs) n = take_back (allow_at h r (neg64 n)).0 rs n

-- (*limiterGroup).Allow
unfoldable pub group_allow : Heap → List ℕ → ℕ → Heap × Bool
group_allow h rs n =
    let (h', b, i) = allow_until h rs n 0 false in
    (if (not b && ltb 0 i) && gt64 n 0 then take_back h' (take i rs) n else h', b)
