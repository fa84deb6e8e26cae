-- ===== src/Limiter/Listener/Places.antt =====
-- The listener never has more connections open than a limit allows.
use gost_x.Prelude.{
  ℕ, zero, suc, ◌+◌, ◌≤◌, ◌==◌, ==_iff, ◌≡◌, subst, true, some, Option-cases, List, [], ◌∷◌, All,
  Bool-cases, inl, inr, if◌then◌else◌, get_elem?, arith,
}
use gost_x.Text.{Text}
use gost_x.Assoc.{lookup}
use gost_x.Int64.{neg64}
use gost_x.Limiter.Conn.{Limiter, Heap, group_allow}
use gost_x.Limiter.Conn.Cell.{fits}
use gost_x.Limiter.Conn.Bump.{has, bump, room, Within}
use gost_x.Limiter.Conn.Release.{lower, Granted, group_allow-lower}
use gost_x.Limiter.Table.{Store}
use gost_x.Limiter.Table.Cells.{count, Below, IsGroup, Counted}
use gost_x.Limiter.Table.Groups.{IsTable}
use gost_x.Limiter.Table.Reload.{SmallLimits}
use gost_x.Limiter.Listener.{World, without, close_conn}

-- Every counter is within its limit and counts the open connections that hold it.
pub record IsSound (w : World) : Type 0 where
  pub small : SmallLimits w.table.options
  pub counted : Counted w.open_conns w.store
  pub opened : All (IsGroup w.store.next) w.open_conns
  pub bound : ℕ
  pub bounded : bound ≤ w.store.next
  pub table : IsTable bound w.table.ip_limits w.table.cidr_limits
  pub groups :
      (k : Text) (rs : List ℕ) → lookup k w.table.limits ≡ some (some rs) → IsGroup w.store.next rs

pub Within-group :
    (conns : List (List ℕ)) (st : Store) (rs : List ℕ)
    → Counted conns st
    → Below st.next rs
    → Within st.cells rs
Within-group conns st [] c b = tt
Within-group conns st (r ∷ rs) c b = ((c r b.0).0, Within-group conns st rs c b.1)

room-has :
    (h : Heap) (rs : List ℕ) (n r : ℕ) → room h rs n ≡ true → has r rs ≡ true → fits (h r) n ≡ true
room-has h [] n r e q = absurd (ground arith)
room-has h (p ∷ rs) n r e q = elim (Bool-cases (p == r)) [
  | inl w ↦ subst (λ i. fits (h i) n ≡ true) ((==_iff p r).0 w) (ground arith)
  | inr w ↦ room-has h rs n r (ground arith) (ground arith)
]

-- A group that has room takes one more connection.
pub bump-Counted :
    (conns : List (List ℕ)) (st : Store) (rs : List ℕ)
    → room st.cells rs 1 ≡ true
    → Counted conns st
    → Counted (rs ∷ conns) (record st { cells = bump st.cells rs 1 })
unfolding count
bump-Counted conns st rs e c r p = elim (Bool-cases (has r rs)) [
  | inl q ↦
      rw (q, Limiter)
        (
          record {
            small = (c r p).0.small;
            bounded = ground (arith, room-has st.cells rs 1 r e q);
          },
          omega (arith, (c r p).1),
        )
  | inr q ↦ rw q ((c r p).0, omega (arith, (c r p).1))
]

count-without :
    (r : ℕ) (conns : List (List ℕ)) (k : ℕ) (rs : List ℕ)
    → get_elem? conns k ≡ some rs
    → count r conns ≡ (if has r rs then 1 else 0) + count r (without k conns)
unfolding count without
count-without r [] k rs e = absurd (cc e)
count-without r (c ∷ conns) zero rs e = ground arith
count-without r (c ∷ conns) (suc k) rs e = omega (arith, count-without r conns k rs e)

lower-Counted :
    (conns : List (List ℕ)) (st : Store) (rs : List ℕ) (k : ℕ)
    → get_elem? conns k ≡ some rs
    → Counted conns st
    → Counted (without k conns) (record st { cells = lower st.cells rs 1 })
lower-Counted conns st rs k e c r p = elim (Bool-cases (has r rs)) [
  | inl q ↦
      rw (q, Limiter)
        (
          record { small = (c r p).0.small; bounded = omega (arith, (c r p).0.bounded) },
          ground (arith, (c r p).1, count-without r conns k rs e),
        )
  | inr q ↦ rw (q, Limiter) ((c r p).0, ground (arith, (c r p).1, count-without r conns k rs e))
]

Granted-open :
    (conns : List (List ℕ)) (st : Store) (rs : List ℕ) (k : ℕ)
    → get_elem? conns k ≡ some rs
    → Counted conns st
    → (qs : List ℕ) → Below st.next qs
    → ((r : ℕ) → has r qs ≡ true → has r rs ≡ true)
    → Granted st.cells qs 1
Granted-open conns st rs k e c [] b h = tt
Granted-open conns st rs k e c (q ∷ qs) b h = (
  ground (arith, (c q b.0).1, count-without q conns k rs e, h q, ==_iff q q),
  Granted-open conns st rs k e c qs b.1 (λ r w. ground (arith, h r)),
)

IsGroup-without :
    (m : ℕ) (conns : List (List ℕ)) (k : ℕ)
    → All (IsGroup m) conns
    → All (IsGroup m) (without k conns)
unfolding without
IsGroup-without m [] k o = tt
IsGroup-without m (c ∷ conns) zero o = o.1
IsGroup-without m (c ∷ conns) (suc k) o = (o.0, IsGroup-without m conns k o.1)

IsGroup-elem :
    (m : ℕ) (conns : List (List ℕ)) (k : ℕ) (rs : List ℕ)
    → All (IsGroup m) conns
    → get_elem? conns k ≡ some rs
    → IsGroup m rs
IsGroup-elem m [] k rs o e = absurd (cc e)
IsGroup-elem m (c ∷ conns) zero rs o e = subst (IsGroup m) (ground arith) o.0
IsGroup-elem m (c ∷ conns) (suc k) rs o e = IsGroup-elem m conns k rs o.1 e

pub close_conn-IsSound : (k : ℕ) (w : World) → IsSound w → IsSound (close_conn k w)
unfolding close_conn
close_conn-IsSound k w h = elim (Option-cases (get_elem? w.open_conns k)) [
  | inl e ↦ rw (e, close_conn) h
  | inr (rs, e) ↦
      rw (e, close_conn, released rs e)
        (record {
          small = h.small;
          counted = lower-Counted w.open_conns w.store rs k e h.counted;
          opened = IsGroup-without w.store.next w.open_conns k h.opened;
          bound = h.bound;
          bounded = h.bounded;
          table = h.table;
          groups = h.groups;
        })
]
  where
    released :
        (rs : List ℕ)
        → get_elem? w.open_conns k ≡ some rs
        → group_allow w.store.cells rs (neg64 1) ≡ (lower w.store.cells rs 1, true)
    released rs e =
        let g = IsGroup-elem w.store.next w.open_conns k rs h.opened e in
        group_allow-lower w.store.cells rs 1 g.filled g.apart
          (Within-group w.open_conns w.store rs h.counted g.below)
          (Granted-open w.open_conns w.store rs k e h.counted rs g.below (λ r q. q))
