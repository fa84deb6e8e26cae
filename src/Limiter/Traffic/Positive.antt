-- ===== src/Limiter/Traffic/Positive.antt =====
-- The traffic limiter keeps positive rates only, through reloads and calls of In and Out.
use gost_x.Prelude.{
  ℕ, zero, suc, ◌≡◌, refl, subst, some, Option-cases, Bool-cases, ◌⊎◌, inl, inr, List, [], ◌∷◌,
  ◌++◌, All, map, get_elem?, some_inj, arith,
}
use mathlib.Core.Option
use gost_x.Text.{Text, eq_text}
use gost_x.Assoc.{Assoc, lookup, delete, has_key}
use gost_x.Net.{Libs, IpNet, parse_ip, parse_cidr}
use gost_x.Int64.{gt64}
use gost_x.Limiter.Traffic.{Rates, made}
use gost_x.Limiter.Traffic.Table.{
  Levels, value_at, set_level, put_side, put_value, put_values, network_of, clean_one, clean,
  host_level,
}
use gost_x.Limiter.Traffic.Waiting.{IsRate}
use gost_x.Limiter.Traffic.Rated.{
  IsWord64, AreWords, AllRates, insert-AllRates, delete-AllRates, positive-IsRate, of_made,
}

-- Values as they are loaded.
abbrev pub AllWords : Assoc Rates → Type 0
AllWords values = All (λ e. AreWords e.1) values

pub set_level-AllRates :
    (k : Text) (n : ℕ) (m : Assoc ℕ) → IsWord64 n → AllRates m → AllRates (set_level k n m)
unfolding set_level
set_level-AllRates k n m w h = elim (Bool-cases (has_key k m)) [
  | inl e ↦ elim (Bool-cases (gt64 n 0)) [
    | inl f ↦ rw (e, f, set_level) (insert-AllRates k n m (positive-IsRate n w f) h)
    | inr f ↦ rw (e, f, set_level) (delete-AllRates k m h)
  ]
  | inr e ↦ elim (Bool-cases (gt64 n 0)) [
    | inl f ↦ rw (e, f, set_level) (insert-AllRates k n m (positive-IsRate n w f) h)
    | inr f ↦ rw (e, f, set_level) h
  ]
]

pub value_at-AreWords :
    (k : Text) (values : Assoc Rates) → AllWords values → AreWords (value_at k values)
unfolding value_at lookup
value_at-AreWords k [] h = (omega arith, omega arith)
value_at-AreWords k ((j, v) ∷ values) h = elim (Bool-cases (eq_text j k)) [
  | inl e ↦ rw (e, value_at) h.0
  | inr e ↦ rw (e, value_at) (value_at-AreWords k values h.1)
]

pub delete-AllWords :
    (k : Text) (values : Assoc Rates) → AllWords values → AllWords (delete k values)
unfolding delete
delete-AllWords k [] h = tt
delete-AllWords k ((j, v) ∷ values) h = elim (Bool-cases (eq_text j k)) [
  | inl e ↦ rw e (delete-AllWords k values h.1)
  | inr e ↦ rw e (h.0, delete-AllWords k values h.1)
]

-- The entry of a network is one of the list.
at-AreWords :
    (cs : List (IpNet × Rates)) (i : ℕ) (g : Rates)
    → All (λ e. AreWords e.1) cs
    → Option.map (λ e. e.1) (get_elem? cs i) ≡ some g
    → AreWords g
at-AreWords [] i g h e = absurd cc
at-AreWords (c ∷ cs) zero g h e = subst AreWords (some_inj c.1 g e) h.0
at-AreWords (c ∷ cs) (suc i) g h e = at-AreWords cs i g h.1 e

List-cases : (is : List ℕ) → (is ≡ []) ⊎ ((i : ℕ) × (js : List ℕ) × (is ≡ i ∷ js))
List-cases [] = inl refl
List-cases (i ∷ is) = inr (i, is, refl)

network_of-AreWords :
    (libs : Libs) (cs : List (IpNet × Rates)) (k : Text) (g : Rates)
    → All (λ e. AreWords e.1) cs
    → network_of libs cs k ≡ some g
    → AreWords g
unfolding network_of
network_of-AreWords libs cs k g h e = elim (Option-cases (parse_ip k)) [
  | inl f ↦ absurd (ground arith)
  | inr (ip, f) ↦ elim (List-cases (libs.containing_networks (map (λ c. c.0) cs) ip)) [
    | inl q ↦ absurd (ground arith)
    | inr (i, is, q) ↦ at-AreWords cs i g h (ground arith)
  ]
]

module _ (libs : Libs) (cs : List (IpNet × Rates)) (rate : Rates → ℕ)
    (words : (g : Rates) → AreWords g → IsWord64 (rate g)) (h : All (λ e. AreWords e.1) cs) where
  clean_one-AllRates : (k : Text) (m : Assoc ℕ) → AllRates m → AllRates (clean_one libs cs rate k m)
  unfolding clean_one
  clean_one-AllRates k m a = elim (Option-cases (network_of libs cs k)) [
    | inl e ↦ rw (e, clean_one) (delete-AllRates k m a)
    | inr (g, e) ↦ elim (Bool-cases (gt64 (rate g) 0)) [
      | inl f ↦
          rw (e, f, clean_one)
            (insert-AllRates k (rate g) m
              (positive-IsRate (rate g) (words g (network_of-AreWords libs cs k g h e)) f) a)
      | inr f ↦ rw (e, f, clean_one) (delete-AllRates k m a)
    ]
  ]

  pub clean-AllRates : (left m : Assoc ℕ) → AllRates m → AllRates (clean libs cs rate left m)
  unfolding clean
  clean-AllRates [] m a = a
  clean-AllRates ((k, r) ∷ left) m a =
      clean-AllRates left (clean_one libs cs rate k m) (clean_one-AllRates k m a)

  -- What the level of an address returns and leaves.
  pub host_level-AllRates :
      (k : Text) (m : Assoc ℕ)
      → AllRates m
      → ((n : ℕ) → (host_level libs cs rate k m).0 ≡ some n → IsRate n)
        × AllRates (host_level libs cs rate k m).1
  unfolding host_level
  host_level-AllRates k m a = elim (Option-cases (lookup k m)) [
    | inr (r, e) ↦ rw (e, host_level) (λ n f. subst IsRate (some_inj r n f) (a k r e), a)
    | inl e ↦ elim (Option-cases (network_of libs cs k)) [
      | inl f ↦ rw (e, f, host_level) (λ n q. absurd cc, a)
      | inr (g, f) ↦ elim (Option-cases (made (rate g))) [
        | inl q ↦ rw (e, f, q, host_level) (λ n p. absurd cc, a)
        | inr (r, q) ↦
            let is = (of_made (rate g) r (words g (network_of-AreWords libs cs k g h f)) q).0 in
            rw (e, f, q, host_level)
              (λ n p. subst IsRate (some_inj r n p) is, insert-AllRates k r m is a)
      ]
    ]
  ]

-- The loop over the values.
pub record AreRated (w : Levels) : Type 0 where
  pub cidrs : All (λ e. AreWords e.1) w.cidrs
  pub ins : AllRates w.ins.limits
  pub outs : AllRates w.outs.limits

All-append :
    (cs ds : List (IpNet × Rates))
    → All (λ e. AreWords e.1) cs
    → All (λ e. AreWords e.1) ds
    → All (λ e. AreWords e.1) (cs ++ ds)
All-append [] ds h k = k
All-append (c ∷ cs) ds h k = (h.0, All-append cs ds h.1 k)

put_value-AreRated :
    (k : Text) (v : Rates) (w : Levels) → AreWords v → AreRated w → AreRated (put_value k v w)
unfolding put_value put_side
put_value-AreRated k v w h a = elim (Option-cases (parse_cidr k)) [
  | inl e ↦
      rw (e, put_value)
        (record {
          cidrs = a.cidrs;
          ins = set_level-AllRates k v.inward w.ins.limits h.0 a.ins;
          outs = set_level-AllRates k v.outward w.outs.limits h.1 a.outs;
        })
  | inr (net, e) ↦
      rw (e, put_value)
        (record {
          cidrs = All-append w.cidrs ((net, v) ∷ []) a.cidrs (h, tt);
          ins = a.ins;
          outs = a.outs;
        })
]

pub put_values-AreRated :
    (values : Assoc Rates) (w : Levels)
    → AllWords values
    → AreRated w
    → AreRated (put_values values w)
unfolding put_values
put_values-AreRated [] w h a = a
put_values-AreRated ((k, v) ∷ values) w h a =
    put_values-AreRated values (put_value k v w) h.1 (put_value-AreRated k v w h.0 a)
