-- ===== src/Limiter/Table/Groups.antt =====
-- The groups that Limiter makes.
use gost_x.Prelude.{
  ℕ, zero, suc, ◌<◌, ◌≤◌, ◌≡◌, ◌≢◌, refl, true, false, Option, none, some, Option-cases, List, [],
  ◌∷◌, map, All, Bool-cases, ◌⊎◌, inl, inr, get_elem?, arith,
}
use mathlib.Core.Option
use gost_x.Text.{Text}
use gost_x.Assoc.{Assoc, lookup}
use gost_x.Net.{Libs, Ip, IpNet}
use gost_x.Int64.{gt64}
use gost_x.Limiter.Conn.Cell.{half}
use gost_x.Limiter.Conn.Bump.{has, NoTwice}
use gost_x.Limiter.Table.{Store, Generator, each, single, take_from, global_limit_key, containing}
use gost_x.Limiter.Table.Cells.{
  Below, IsGroup, Counted, Sized, SizedOption, IsTaken, take_from-IsTaken,
}

-- Generators of networks make a counter for each client.
abbrev pub IsEach : Generator → Type 0
IsEach (each n) = gt64 n 0 ≡ true → n < half
IsEach (single r) = ⊥

-- The generators of a table whose counters are below m.
pub record IsTable (m : ℕ) (ips : Assoc Generator) (cidrs : List (IpNet × Generator)) : Type 0 where
  pub sized : (k : Text) (g : Generator) → lookup k ips ≡ some g → Sized m g
  pub apart :
      (j k : Text) (r : ℕ)
      → lookup j ips ≡ some (single (some r))
      → lookup k ips ≡ some (single (some r))
      → j ≡ k
  pub fresh : All (λ e. IsEach e.1) cidrs

-- The counters of a client, before those that all clients share.
pub record IsClient (conns : List (List ℕ)) (ips : Assoc Generator) (m : ℕ) (w : List ℕ × Store)
    : Type 0 where
  pub counted : Counted conns w.1
  pub grows : m ≤ w.1.next
  pub below : Below w.1.next w.0
  pub apart : NoTwice w.0
  pub unshared : (s : ℕ) → lookup global_limit_key ips ≡ some (single (some s)) → has s w.0 ≡ false

pub IsClient-mono :
    (conns : List (List ℕ)) (ips : Assoc Generator) (m m' : ℕ) (w : List ℕ × Store)
    → m ≤ m'
    → IsClient conns ips m' w
    → IsClient conns ips m w
IsClient-mono conns ips m m' w p h = record {
  counted = h.counted;
  grows = omega (arith, h.grows);
  below = h.below;
  apart = h.apart;
  unshared = h.unshared;
}

-- Counters that do not come from the generator of the shared one.
IsTaken-IsClient :
    (conns : List (List ℕ)) (ips : Assoc Generator) (cidrs : List (IpNet × Generator)) (m : ℕ)
    (st : Store) (g : Option Generator) (w : List ℕ × Store)
    → IsTable m ips cidrs
    → m ≤ st.next
    → ((s : ℕ) → lookup global_limit_key ips ≡ some (single (some s)) → g ≢ some (single (some s)))
    → IsTaken conns st g w
    → IsClient conns ips st.next w
IsTaken-IsClient conns ips cidrs m st g w t p ne h = record {
  counted = h.counted;
  grows = omega (arith, h.grows);
  below = h.below;
  apart = h.apart;
  unshared = λ s e. elim (Bool-cases (has s w.0)) [
    | inl q ↦ elim (h.source s q) [
      | inl old ↦ absurd (omega (arith, t.sized global_limit_key (single (some s)) e))
      | inr same ↦ absurd (ne s e same)
    ]
    | inr q ↦ q
  ];
}

pub SizedOption-lookup :
    (m m' : ℕ) (ips : Assoc Generator) (cidrs : List (IpNet × Generator)) (k : Text)
    → IsTable m ips cidrs
    → m ≤ m'
    → SizedOption m' (lookup k ips)
SizedOption-lookup m m' ips cidrs k t p = elim (Option-cases (lookup k ips)) [
  | inl e ↦ rw e tt
  | inr (g, e) ↦ rw e (grown g (t.sized k g e))
]
  where
    grown : (g : Generator) → Sized m g → Sized m' g
    grown (each n) s = s
    grown (single none) s = tt
    grown (single (some r)) s = omega arith

pub take_lookup :
    (conns : List (List ℕ)) (ips : Assoc Generator) (cidrs : List (IpNet × Generator)) (m : ℕ)
    (st : Store) (k : Text)
    → IsTable m ips cidrs
    → m ≤ st.next
    → Counted conns st
    → All (IsGroup st.next) conns
    → k ≢ global_limit_key
    → IsClient conns ips st.next (take_from (lookup k ips) st)
take_lookup conns ips cidrs m st k t p c o ne =
    IsTaken-IsClient conns ips cidrs m st (lookup k ips) (take_from (lookup k ips) st) t p
      (λ s e q. ne (t.apart k global_limit_key s q e))
      (take_from-IsTaken conns st (lookup k ips) c o (SizedOption-lookup m st.next ips cidrs k t p))

get_elem?-IsEach :
    (cs : List (IpNet × Generator)) (i : ℕ)
    → All (λ e. IsEach e.1) cs
    → ((Option.map (λ e. e.1) (get_elem? cs i) ≡ none)
        ⊎ ((g : Generator) × (Option.map (λ e. e.1) (get_elem? cs i) ≡ some g) × IsEach g))
get_elem?-IsEach [] i h = inl refl
get_elem?-IsEach (c ∷ cs) zero h = inr (c.1, refl, h.0)
get_elem?-IsEach (c ∷ cs) (suc i) h = get_elem?-IsEach cs i h.1

containing-IsEach :
    (libs : Libs) (cs : List (IpNet × Generator)) (ip : Ip)
    → All (λ e. IsEach e.1) cs
    → ((containing libs cs ip ≡ none)
        ⊎ ((g : Generator) × (containing libs cs ip ≡ some g) × IsEach g))
unfolding containing
containing-IsEach libs cs ip h = first (libs.containing_networks (map (λ e. e.0) cs) ip)
  where
    first :
        (is : List ℕ)
        → ((elim is [ [] ↦ none | i ∷ js ↦ Option.map (λ e. e.1) (get_elem? cs i) ] ≡ none)
            ⊎ ((g : Generator) × (elim is [
              | [] ↦ none
              | i ∷ js ↦ Option.map (λ e. e.1) (get_elem? cs i)
            ]
                  ≡ some g)
                × IsEach g))
    first [] = inl refl
    first (i ∷ js) = get_elem?-IsEach cs i h

pub take_containing :
    (libs : Libs) (conns : List (List ℕ)) (ips : Assoc Generator) (cs : List (IpNet × Generator))
    (m : ℕ) (st : Store) (ip : Ip)
    → IsTable m ips cs
    → m ≤ st.next
    → Counted conns st
    → All (IsGroup st.next) conns
    → IsClient conns ips st.next (take_from (containing libs cs ip) st)
take_containing libs conns ips cs m st ip t p c o = elim (containing-IsEach libs cs ip t.fresh) [
  | inl e ↦ rw e (from none (λ s a q. cc) tt)
  | inr (g, e, h) ↦ rw e (made g h)
]
  where
    from :
        (g : Option Generator)
        → ((s : ℕ)
            → lookup global_limit_key ips ≡ some (single (some s))
            → g ≢ some (single (some s)))
        → SizedOption st.next g
        → IsClient conns ips st.next (take_from g st)
    from g ne s =
        IsTaken-IsClient conns ips cs m st g (take_from g st) t p ne
          (take_from-IsTaken conns st g c o s)

    made : (g : Generator) → IsEach g → IsClient conns ips st.next (take_from (some g) st)
    made (each n) h = from (some (each n)) (λ s a q. cc) h
    made (single r) h = absurd h
