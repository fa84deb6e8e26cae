-- ===== src/Limiter/Table/Reload.antt =====
-- The reload of the table: its counters are new, one for each key that shares one.
use gost_x.Prelude.{
  ℕ, ◌+◌, ◌<◌, ◌≤◌, ◌≡◌, refl, sym, ◌∙◌, ap, subst, Bool, true, false, not, ◌||◌, Option, none,
  some, Option-cases, List, [], ◌∷◌, ◌++◌, All, Bool-cases, inl, inr, is_empty, arith,
}
use gost_x.Text.{Text, eq_text}
use gost_x.Text.Laws.{eq_text_iff}
use gost_x.Assoc.{Assoc, lookup, insert, lookup-insert, lookup_nil}
use gost_x.Net.{IpNet, parse_ip, parse_cidr}
use gost_x.Loader.{load_patterns}
use gost_x.Int64.{gt64}
use gost_x.Limiter.Conn.Cell.{half}
use gost_x.Limiter.Table.{
  Store, alloc, Generator, each, single, new_single, Options, ConnLimiter, Limits, parse_limit,
  put_single, put_limit, add_limit, add_limits, reload, global_limit_key, ip_limit_key,
}
use gost_x.Limiter.Table.Cells.{IsGroup, IsGroup-mono, Counted, Counted-alloc, next-alloc, Sized}
use gost_x.Limiter.Table.Groups.{IsEach, IsTable}

-- A limit that is positive is below 2 ^ 62.
abbrev pub IsSmall : ℕ → Type 0
IsSmall n = gt64 n 0 ≡ true → n < half

-- No line of the options or of the loaders, whenever they are read, asks for 2 ^ 62 connections.
abbrev pub SmallLimits : Options → Type 0
SmallLimits o =
    (t : ℕ) → All (λ s. IsSmall (parse_limit s).1) (o.limits ++ load_patterns o.loaders t)

record IsFilled (conns : List (List ℕ)) (m : ℕ) (l : Limits) : Type 0 where
  table : IsTable l.store.next l.ips l.cidrs
  counted : Counted conns l.store
  grows : m ≤ l.store.next

Sized-next : (m : ℕ) (g : Generator) → Sized m g → Sized (m + 1) g
Sized-next m (each n) s = s
Sized-next m (single none) s = tt
Sized-next m (single (some r)) s = omega arith

insert-Sized :
    (m m' : ℕ) (ips : Assoc Generator) (key k : Text) (g g' : Generator)
    → ((i : Text) (q : Generator) → lookup i ips ≡ some q → Sized m q)
    → ((q : Generator) → Sized m q → Sized m' q)
    → Sized m' g
    → lookup k (insert key g ips) ≡ some g'
    → Sized m' g'
insert-Sized m m' ips key k g g' h up s e = elim (Bool-cases (eq_text key k)) [
  | inl q ↦ subst (Sized m') (ground (arith, lookup-insert key k g ips)) s
  | inr q ↦ up g' (h k g' (ground (arith, lookup-insert key k g ips)))
]

counter_of : Option Generator → ℕ
counter_of none = 0
counter_of (some (each n)) = 0
counter_of (some (single none)) = 0
counter_of (some (single (some r))) = r

apart_new :
    (m : ℕ) (ips : Assoc Generator) (cidrs : List (IpNet × Generator)) (key j k : Text) (r : ℕ)
    → IsTable m ips cidrs
    → eq_text key j ≡ true
    → eq_text key k ≡ false
    → lookup j (insert key (single (some m)) ips) ≡ some (single (some r))
    → lookup k (insert key (single (some m)) ips) ≡ some (single (some r))
    → ⊥
unfolding counter_of
apart_new m ips cidrs key j k r t p q a b = omega (arith, same, old)
  where
    new : some (single (some m)) ≡ some (single (some r))
    new = ground (arith, lookup-insert key j (single (some m)) ips)

    same : m ≡ r
    same = ap counter_of new

    old : r < m
    old = t.sized k (single (some r)) (ground (arith, lookup-insert key k (single (some m)) ips))

-- A key that gets a new counter shares it with no other key.
insert-apart :
    (m : ℕ) (ips : Assoc Generator) (cidrs : List (IpNet × Generator)) (key j k : Text) (r : ℕ)
    → IsTable m ips cidrs
    → lookup j (insert key (single (some m)) ips) ≡ some (single (some r))
    → lookup k (insert key (single (some m)) ips) ≡ some (single (some r))
    → j ≡ k
insert-apart m ips cidrs key j k r t a b = elim (Bool-cases (eq_text key j)) [
  | inl p ↦ elim (Bool-cases (eq_text key k)) [
    | inl q ↦ sym ((eq_text_iff key j).0 p) ∙ (eq_text_iff key k).0 q
    | inr q ↦ absurd (apart_new m ips cidrs key j k r t p q a b)
  ]
  | inr p ↦ elim (Bool-cases (eq_text key k)) [
    | inl q ↦ absurd (apart_new m ips cidrs key k j r t q p b a)
    | inr q ↦
        t.apart j k r (ground (arith, lookup-insert key j (single (some m)) ips))
          (ground (arith, lookup-insert key k (single (some m)) ips))
  ]
]

put_single-IsFilled :
    (conns : List (List ℕ)) (m : ℕ) (key : Text) (n : ℕ) (l : Limits)
    → gt64 n 0 ≡ true
    → n < half
    → All (IsGroup m) conns
    → IsFilled conns m l
    → IsFilled conns m (put_single key n l)
unfolding put_single new_single alloc
put_single-IsFilled conns m key n l e p o h = rw e (record {
  table = record {
    sized = λ k g q.
        insert-Sized l.store.next (l.store.next + 1) l.ips key k (single (some l.store.next)) g
          h.table.sized (Sized-next l.store.next) (omega arith) (ground arith);
    apart = λ j k r. insert-apart l.store.next l.ips l.cidrs key j k r h.table;
    fresh = h.table.fresh;
  };
  counted = Counted-alloc conns l.store n h.counted (IsGroup-mono m l.store.next conns h.grows o) p;
  grows = omega (arith, next-alloc l.store n, h.grows);
})

insert_each-IsFilled :
    (conns : List (List ℕ)) (m : ℕ) (key : Text) (n : ℕ) (l : Limits)
    → n < half
    → IsFilled conns m l
    → IsFilled conns m (record l { ips = insert key (each n) l.ips })
insert_each-IsFilled conns m key n l p h = record {
  table = record {
    sized = λ k g q.
        insert-Sized l.store.next l.store.next l.ips key k (each n) g h.table.sized (λ q s. s)
          (λ s. p) q;
    apart = λ j k r a b. h.table.apart j k r (old j r a) (old k r b);
    fresh = h.table.fresh;
  };
  counted = h.counted;
  grows = h.grows;
}
  where
    old :
        (k : Text) (r : ℕ)
        → lookup k (insert key (each n) l.ips) ≡ some (single (some r))
        → lookup k l.ips ≡ some (single (some r))
    old k r e = elim (Bool-cases (eq_text key k)) [
      | inl q ↦ absurd (ground (arith, lookup-insert key k (each n) l.ips))
      | inr q ↦ ground (arith, lookup-insert key k (each n) l.ips)
    ]

fresh-append :
    (cs : List (IpNet × Generator)) (c : IpNet × Generator)
    → All (λ e. IsEach e.1) cs
    → IsEach c.1
    → All (λ e. IsEach e.1) (cs ++ c ∷ [])
fresh-append [] c h k = (k, tt)
fresh-append (d ∷ cs) c h k = (h.0, fresh-append cs c h.1 k)

put_limit-IsFilled :
    (conns : List (List ℕ)) (m : ℕ) (key : Text) (n : ℕ) (l : Limits)
    → gt64 n 0 ≡ true
    → n < half
    → All (IsGroup m) conns
    → IsFilled conns m l
    → IsFilled conns m (put_limit key n l)
unfolding put_limit
put_limit-IsFilled conns m key n l e p o h = elim (Bool-cases (eq_text key global_limit_key)) [
  | inl q ↦ rw q one
  | inr q ↦ elim (Bool-cases (eq_text key ip_limit_key)) [
    | inl w ↦ rw (q, w) (insert_each-IsFilled conns m key n l p h)
    | inr w ↦ elim (Option-cases (parse_ip key)) [
      | inr (ip, i) ↦ rw (q, w, i) one
      | inl i ↦ elim (Option-cases (parse_cidr key)) [
        | inl c ↦ rw (q, w, i, c) h
        | inr (net, c) ↦
            rw (q, w, i, c)
              (record {
                table = record {
                  sized = h.table.sized;
                  apart = h.table.apart;
                  fresh = fresh-append l.cidrs (net, each n) h.table.fresh (λ s. p);
                };
                counted = h.counted;
                grows = h.grows;
              })
      ]
    ]
  ]
]
  where
    one : IsFilled conns m (put_single key n l)
    one = put_single-IsFilled conns m key n l e p o h

add_limit-IsFilled :
    (conns : List (List ℕ)) (m : ℕ) (s : Text) (l : Limits)
    → IsSmall (parse_limit s).1
    → All (IsGroup m) conns
    → IsFilled conns m l
    → IsFilled conns m (add_limit s l)
unfolding add_limit
add_limit-IsFilled conns m s l p o h =
    elim (Bool-cases (is_empty (parse_limit s).0 || not (gt64 (parse_limit s).1 0))) [
      | inl e ↦ rw e h
      | inr e ↦ rw e (
          put_limit-IsFilled conns m (parse_limit s).0 (parse_limit s).1 l (ground arith)
            (p (ground arith)) o h)
    ]

add_limits-IsFilled :
    (conns : List (List ℕ)) (m : ℕ) (ss : List Text) (l : Limits)
    → All (λ s. IsSmall (parse_limit s).1) ss
    → All (IsGroup m) conns
    → IsFilled conns m l
    → IsFilled conns m (add_limits ss l)
unfolding add_limits
add_limits-IsFilled conns m [] l p o h = h
add_limits-IsFilled conns m (s ∷ ss) l p o h =
    add_limits-IsFilled conns m ss (add_limit s l) p.1 o (add_limit-IsFilled conns m s l p.0 o h)

-- What a reload leaves.
pub record IsReloaded (conns : List (List ℕ)) (m : ℕ) (w : ConnLimiter × Store) : Type 0 where
  pub table : IsTable w.1.next w.0.ip_limits w.0.cidr_limits
  pub counted : Counted conns w.1
  pub grows : m ≤ w.1.next
  pub empty : (k : Text) → lookup k w.0.limits ≡ none

pub reload-IsReloaded :
    (conns : List (List ℕ)) (o : Options) (b : Bool) (t : ℕ) (st : Store)
    → SmallLimits o
    → Counted conns st
    → All (IsGroup st.next) conns
    → IsReloaded conns st.next (reload o b t st)
unfolding reload
reload-IsReloaded conns o b t st p c g = record {
  table = h.table;
  counted = h.counted;
  grows = h.grows;
  empty = λ k. lookup_nil k;
}
  where
    h : IsFilled conns st.next (
        add_limits
          (o.limits ++ load_patterns o.loaders t)
          (record { ips = []; cidrs = []; store = st }))
    h = add_limits-IsFilled conns st.next _ _ (p t) g (record {
      table = record {
        sized = λ k g q. absurd (cc (lookup_nil {V = Generator} k, q));
        apart = λ j k r q. absurd (cc (lookup_nil {V = Generator} j, q));
        fresh = tt;
      };
      counted = c;
      grows = omega arith;
    })

pub options-reload : (o : Options) (b : Bool) (t : ℕ) (st : Store) → (reload o b t st).0.options ≡ o
unfolding reload
options-reload o b t st = refl
