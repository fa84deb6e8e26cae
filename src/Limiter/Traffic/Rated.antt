-- ===== src/Limiter/Traffic/Rated.antt =====
-- All limiters that the traffic limiter makes and hands out have positive rates.
use gost_x.Prelude.{
  ℕ, ◌<◌, ◌≡◌, subst, true, Option, some, Option-cases, Bool-cases, inl, inr, some_inj, arith, ◌==◌,
}
use gost_x.Text.{Text, eq_text}
use gost_x.Assoc.{Assoc, lookup, insert, delete, lookup-insert, lookup-delete, lookup_nil}
use gost_x.Int64.{gt64, modulus}
use gost_x.Limiter.Traffic.{Rates, made, set_all, reload_cache, through_cache}
use gost_x.Limiter.Traffic.Reload.{lookup-set_all}
use gost_x.Limiter.Traffic.Stable.{through_cache-made, lookup-through_cache}
use gost_x.Limiter.Traffic.Waiting.{IsRate}

-- A rate that is a word of 64 bits.
abbrev pub IsWord64 : ℕ → Type 0
IsWord64 n = n < modulus

abbrev pub AreWords : Rates → Type 0
AreWords g = IsWord64 g.inward × IsWord64 g.outward

pub made-IsRate : (n r : ℕ) → IsWord64 n → made n ≡ some r → IsRate r
unfolding made gt64
made-IsRate n r h e = ground arith

abbrev pub AllRates : Assoc ℕ → Type 0
AllRates m = (k : Text) (r : ℕ) → lookup k m ≡ some r → IsRate r

pub insert-AllRates :
    (k : Text) (n : ℕ) (m : Assoc ℕ) → IsRate n → AllRates m → AllRates (insert k n m)
insert-AllRates k n m p h j r e = elim (Bool-cases (eq_text k j)) [
  | inl f ↦ subst IsRate (some_inj n r (ground (arith, lookup-insert k j n m))) p
  | inr f ↦ h j r (ground (arith, lookup-insert k j n m))
]

pub delete-AllRates : (k : Text) (m : Assoc ℕ) → AllRates m → AllRates (delete k m)
delete-AllRates k m h j r e = elim (Bool-cases (eq_text k j)) [
  | inl f ↦ absurd (ground (arith, lookup-delete k j m))
  | inr f ↦ h j r (ground (arith, lookup-delete k j m))
]

pub positive-IsRate : (n : ℕ) → IsWord64 n → gt64 n 0 ≡ true → IsRate n
unfolding gt64
positive-IsRate n h e = ground arith

-- The cached limiters of connections: if there is one, then the rate of the generator is positive too.
abbrev pub AllUnder : ℕ → Assoc ℕ → Type 0
AllUnder rate m = (k : Text) (r : ℕ) → lookup k m ≡ some r → IsRate r × IsRate rate

set_all-some :
    (k : Text) (old : ℕ) (m : Assoc ℕ) (r : ℕ)
    → lookup k (set_all old m) ≡ some r
    → (q : ℕ) × (lookup k m ≡ some q) × (old ≡ r)
set_all-some k old m r e = elim (Option-cases (lookup k m)) [
  | inl f ↦ absurd (ground (arith, lookup-set_all k old m))
  | inr (q, f) ↦ (q, f, some_inj old r (ground (arith, lookup-set_all k old m)))
]

pub reload_cache-AllUnder :
    (value old : ℕ) (m : Assoc ℕ)
    → IsWord64 value
    → AllUnder old m
    → AllUnder value (reload_cache value old m)
unfolding reload_cache
reload_cache-AllUnder value old m w h k r = elim (Bool-cases (gt64 value 0)) [
  | inl p ↦ elim (Bool-cases (old == value)) [
    | inl q ↦ rw (p, q) (λ e. ((h k r e).0, positive-IsRate value w p))
    | inr q ↦
        rw (p, q)
          (λ e.
            let (s, f, same) = set_all-some k old m r e in
            (subst IsRate same (h k s f).1, positive-IsRate value w p))
  ]
  | inr p ↦ rw p (λ e. absurd (cc (lookup_nil {V = ℕ} k, e)))
]

pub of_made : (rate n : ℕ) → IsWord64 rate → made rate ≡ some n → IsRate n × IsRate rate
unfolding made
of_made rate n w e = elim (Bool-cases (gt64 rate 0)) [
  | inl p ↦
      let positive = positive-IsRate rate w p in
      (subst IsRate (some_inj rate n (ground arith)) positive, positive)
  | inr p ↦ absurd (ground arith)
]

-- What the level of connections returns and leaves.
pub record IsThrough (rate : ℕ) (r : Option ℕ × Assoc ℕ) : Type 0 where
  pub returned : (n : ℕ) → r.0 ≡ some n → IsRate n × IsRate rate
  pub cached : AllUnder rate r.1

pub through_cache-IsThrough :
    (key : Text) (rate : ℕ) (m : Assoc ℕ)
    → IsWord64 rate
    → AllUnder rate m
    → IsThrough rate (through_cache key rate m)
through_cache-IsThrough key rate m w h =
    let back : (n : ℕ) → (through_cache key rate m).0 ≡ some n → IsRate n × IsRate rate = λ n e.
      elim (Option-cases (lookup key m)) [
        | inr (r, f) ↦ h key n (ground (arith, through_cache-made key rate m))
        | inl f ↦ of_made rate n w (ground (arith, through_cache-made key rate m))
      ] in
    record {
      returned = back;
      cached = λ k r e. elim (Bool-cases (eq_text key k)) [
        | inl f ↦ back r (ground (arith, lookup-through_cache key k rate m))
        | inr f ↦ h k r (ground (arith, lookup-through_cache key k rate m))
      ];
    }
