-- ===== src/Limiter/Table/Making.antt =====
-- The group that Limiter makes for a client has counters of the store, none of them twice.
use gost_x.Prelude.{
  ℕ, ◌≤◌, ◌≡◌, refl, subst, true, false, ◌||◌, Option, none, some, Option-cases, List, [], ◌∷◌,
  ◌++◌, All, ==_iff, Bool-cases, inl, inr, if◌then◌else◌, is_empty, arith,
}
use gost_x.Text.{Text}
use gost_x.Assoc.{lookup}
use gost_x.Net.{Libs, parse_ip}
use gost_x.Code.{net_code}
use gost_x.Limiter.Conn.Bump.{has, NoTwice}
use gost_x.Limiter.Table.{
  Store, take_from, ConnLimiter, global_limit_key, ip_limit_key, containing, own_counters,
  client_counters, make_group,
}
use gost_x.Limiter.Table.Cells.{
  Below, Below-mono, IsGroup, IsGroup-mono, has_lt, Counted, IsTaken, take_from-IsTaken,
}
use gost_x.Limiter.Table.Groups.{
  IsTable, IsClient, IsClient-mono, take_lookup, take_containing, SizedOption-lookup,
}
use gost_x.Limiter.Table.Sorting.{IsGroup-sort_counters}

parse_ip_global : parse_ip global_limit_key ≡ none
unfolding net_code
parse_ip_global = refl

module _ (libs : Libs) (l : ConnLimiter) (key : Text) (m : ℕ)
    (t : IsTable m l.ip_limits l.cidr_limits) (conns : List (List ℕ)) (st : Store) (p : m ≤ st.next)
    (c : Counted conns st) (o : All (IsGroup st.next) conns) where
  -- A second source of counters, behind a first one that gave none.
  later :
      (w : List ℕ × Store) (next : Store → List ℕ × Store)
      → IsClient conns l.ip_limits st.next w
      → ((st' : Store)
          → m ≤ st'.next
          → Counted conns st'
          → All (IsGroup st'.next) conns
          → IsClient conns l.ip_limits st'.next (next st'))
      → IsClient conns l.ip_limits st.next (if is_empty w.0 then next w.1 else w)
  later w next h k = elim (Bool-cases (is_empty w.0)) [
    | inl e ↦ rw e (
        IsClient-mono conns l.ip_limits st.next w.1.next (next w.1) h.grows (
          k w.1 (omega (arith, h.grows)) h.counted (IsGroup-mono st.next w.1.next conns h.grows o)))
    | inr e ↦ rw e h
  ]

  own_counters-IsClient : IsClient conns l.ip_limits st.next (own_counters libs l key st)
  unfolding own_counters
  own_counters-IsClient = elim (Option-cases (parse_ip key)) [
    | inl e ↦
        rw (e, own_counters)
          (record {
            counted = c;
            grows = omega arith;
            below = tt;
            apart = tt;
            unshared = λ s q. refl;
          })
    | inr (ip, e) ↦
        rw (e, own_counters)
          (later (take_from (lookup key l.ip_limits) st)
            (take_from (containing libs l.cidr_limits ip))
            (take_lookup conns l.ip_limits l.cidr_limits m st key t p c o
              (λ q. absurd (cc (parse_ip_global, q, e))))
            (λ st'. take_containing libs conns l.ip_limits l.cidr_limits m st' ip t))
  ]

  client_counters-IsClient : IsClient conns l.ip_limits st.next (client_counters libs l key st)
  unfolding client_counters
  client_counters-IsClient =
      later (own_counters libs l key st) (take_from (lookup ip_limit_key l.ip_limits))
        own_counters-IsClient
        (λ st' p' c' o'.
          take_lookup conns l.ip_limits l.cidr_limits m st' ip_limit_key t p' c' o' (λ q. cc))

  -- The counters of the client and the shared one are different.
  NoTwice-shared :
      (w : List ℕ × Store) (s : List ℕ × Store)
      → IsClient conns l.ip_limits st.next w
      → IsTaken conns w.1 (lookup global_limit_key l.ip_limits) s
      → (r : ℕ) → has r s.0 ≡ true
      → has r w.0 ≡ false
  NoTwice-shared w s h k r e = elim (k.source r e) [
    | inl new ↦ elim (Bool-cases (has r w.0)) [
      | inl q ↦ absurd (omega (arith, has_lt w.1.next r w.0 h.below q))
      | inr q ↦ q
    ]
    | inr same ↦ h.unshared r same
  ]

pub has-append : (j : ℕ) (rs ss : List ℕ) → has j (rs ++ ss) ≡ (has j rs || has j ss)
has-append j [] ss = refl
has-append j (r ∷ rs) ss = ground (arith, has-append j rs ss)

NoTwice-append :
    (rs ss : List ℕ)
    → NoTwice rs
    → NoTwice ss
    → ((r : ℕ) → has r ss ≡ true → has r rs ≡ false)
    → NoTwice (rs ++ ss)
NoTwice-append [] ss d e h = e
NoTwice-append (r ∷ rs) ss d e h = (
  elim (Bool-cases (has r ss)) [
    | inl q ↦ absurd (ground (arith, h r q, ==_iff r r))
    | inr q ↦ ground (arith, has-append r rs ss)
  ],
  NoTwice-append rs ss d.1 e (λ q w. ground (arith, h q w)),
)

Below-append : (m : ℕ) (rs ss : List ℕ) → Below m rs → Below m ss → Below m (rs ++ ss)
Below-append m [] ss b c = c
Below-append m (r ∷ rs) ss b c = (b.0, Below-append m rs ss b.1 c)

-- What a lookup leaves, and the group that it returns.
pub record IsMade (conns : List (List ℕ)) (m : ℕ) (g : Option (List ℕ)) (st : Store) : Type 0 where
  pub counted : Counted conns st
  pub grows : m ≤ st.next
  pub group : (rs : List ℕ) → g ≡ some rs → IsGroup st.next rs

pub make_group-IsMade :
    (libs : Libs) (l : ConnLimiter) (key : Text) (m : ℕ) (conns : List (List ℕ)) (st : Store)
    → IsTable m l.ip_limits l.cidr_limits
    → m ≤ st.next
    → Counted conns st
    → All (IsGroup st.next) conns
    → IsMade conns st.next (make_group libs l key st).0 (make_group libs l key st).1
unfolding make_group
make_group-IsMade libs l key m conns st t p c o = record {
  counted = shared.counted;
  grows = omega (arith, client.grows, shared.grows);
  group = λ rs e. elim (Bool-cases (is_empty both)) [
    | inl q ↦ absurd (ground arith)
    | inr q ↦ subst (IsGroup s.1.next) (ground arith) (
        IsGroup-sort_counters s.1.cells s.1.next both q
          (NoTwice-append w.0 s.0 client.apart shared.apart
            (NoTwice-shared libs l key m t conns st p c o w s client shared))
          (Below-append s.1.next w.0 s.0
            (Below-mono w.1.next s.1.next w.0 shared.grows client.below) shared.below))
  ];
}
  where
    w : List ℕ × Store
    w = client_counters libs l key st

    client : IsClient conns l.ip_limits st.next w
    client = client_counters-IsClient libs l key m t conns st p c o

    s : List ℕ × Store
    s = take_from (lookup global_limit_key l.ip_limits) w.1

    shared : IsTaken conns w.1 (lookup global_limit_key l.ip_limits) s
    shared =
        take_from-IsTaken conns w.1 (lookup global_limit_key l.ip_limits) client.counted
          (IsGroup-mono st.next w.1.next conns client.grows o)
          (SizedOption-lookup m w.1.next l.ip_limits l.cidr_limits global_limit_key t
            (omega (arith, client.grows)))

    both : List ℕ
    both = w.0 ++ s.0
