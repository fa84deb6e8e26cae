-- ===== src/Limiter/Conn/Tests.antt =====
-- Groups of counters of connections on concrete heaps.
use gost_x.Prelude.{ℕ, zero, suc, ◌≡◌, refl, true, false, [], ◌∷◌, arith}
use gost_x.Int64.{add64, neg64, gt64}
use gost_x.Limiter.Conn.{Heap, allow, write, allow_at, allow_until, take_back, group_allow}
use gost_x.Limiter.Conn.Cell.{IsWithin}
use gost_x.Limiter.Conn.Group.{group_allow-bump}

-- Counter 0 has one place left, counter 1 is full.
abbrev heap : Heap
heap zero = record { limit = 3; current = 2 }
heap (suc r) = record { limit = 1; current = 1 }

within : (q : ℕ) → IsWithin (heap q)
within zero = record { small = ground arith; bounded = ground arith }
within (suc r) = record { small = ground arith; bounded = ground arith }

one_place : (group_allow heap (0 ∷ []) 1).1 ≡ true
unfolding add64 neg64 gt64 allow write allow_at allow_until take_back group_allow
one_place = refl

full : (group_allow heap (0 ∷ 1 ∷ []) 1).1 ≡ false
unfolding add64 neg64 gt64 allow write allow_at allow_until take_back group_allow
full = refl

-- A group without counters grants nothing.
no_counters : (group_allow heap [] 1).1 ≡ false
unfolding allow_until take_back group_allow
no_counters = refl

group_allow-bump_example : group_allow heap (0 ∷ 1 ∷ []) 1 ≡ (heap, false)
group_allow-bump_example =
    group_allow-bump heap 0 (1 ∷ []) 1 (refl, (refl, tt)) (within 0, (within 1, tt)) (ground arith)
      (ground arith)
