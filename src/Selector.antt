-- ===== src/Selector.antt =====
-- selector/: the choice of one of several nodes, by filters and then a strategy.
use gost_x.Prelude.{
  ℕ, zero, suc, ◌+◌, ◌-◌, ◌*◌, ◌%◌, ◌<◌, ◌≤◌, ◌≡◌, refl, Bool, true, false, not, ◌&&◌, ◌||◌, Option,
  none, some, List, [], ◌∷◌, ◌++◌, map, ltb, leb, ◌==◌, if◌then◌else◌, is_empty, length, get_elem?,
  select, arith,
}
use gost_x.Text.{Text, codes}
use gost_x.Loader.{second}
use gost_x.Int64.{add64, neg64, gt64}
pub mod Filters
pub mod Rounds
pub mod Weights
mod Tests

-- What a marker says now: its count of failures, and the time of the last one in nanoseconds.
pub record Marker : Type 0 where
  pub count : ℕ
  pub time : ℕ

-- The interfaces of a node, which the core package declares: its metadata, read by the accessors of the
-- package metadata/util, and its marker. A node without metadata has no key, and reads as 0 and false.
pub record Traits {ℓ} (T : Type ℓ) : Type ℓ where
  pub exists : T → Text → Bool
  pub get_int : T → Text → ℕ
  pub get_duration : T → Text → ℕ
  pub get_bool : T → Text → Bool
  pub marker : T → Option Marker

abbrev pub default_fail_timeout : ℕ
default_fail_timeout = 10 * second

pub record FailFilter : Type 0 where
  pub max_fails : ℕ
  pub fail_timeout : ℕ

-- The random numbers and the context of a call: Intn n, and the CRC of the hash source if there is one.
pub record Draw : Type 0 where
  pub intn : ℕ → ℕ
  pub source : Option ℕ

pub data Strategy : Type 0 where
  round_robin : ℕ → Strategy
  random fifo hash : Strategy

-- The items of a randomWeighted, each with its weight.
abbrev pub Items {ℓ} : Type ℓ → Type ℓ
Items T = List (T × ℕ)

module _ {ℓ} {T : Type ℓ} where
  -- What Filter of FailFilter settles for a node.
  unfoldable pub max_fails_of : Traits T → FailFilter → T → ℕ
  max_fails_of traits f v =
      let n =
        if traits.exists v (codes "maxFails")
        then traits.get_int v (codes "maxFails")
        else f.max_fails in
      if gt64 n 0 then n else 1

  unfoldable pub fail_timeout_of : Traits T → FailFilter → T → ℕ
  fail_timeout_of traits f v =
      let d =
        if traits.exists v (codes "failTimeout")
        then traits.get_duration v (codes "failTimeout")
        else f.fail_timeout in
      if gt64 d 0 then d else default_fail_timeout

  -- The test of the loop. The timeout is positive, so that it does not matter that the subtraction stops at 0.
  unfoldable pub is_alive : Traits T → FailFilter → ℕ → T → Bool
  is_alive traits f now v = elim (traits.marker v) [
    | none ↦ true
    | some m ↦
        gt64 (max_fails_of traits f v) m.count || leb (fail_timeout_of traits f v) (now - m.time)
  ]

  unfoldable pub fail_filter : Traits T → FailFilter → ℕ → List T → List T
  fail_filter traits f now vs = if leb (length vs) 1 then vs else select (is_alive traits f now) vs

  unfoldable pub is_backup : Traits T → T → Bool
  is_backup traits v = traits.get_bool v (codes "backup")

  unfoldable pub backup_filter : Traits T → List T → List T
  backup_filter traits vs =
      if leb (length vs) 1
      then vs
      else let l = select (λ v. not (is_backup traits v)) vs in
        if is_empty l then select (is_backup traits) vs else l

  unfoldable pub weight_of : Traits T → T → ℕ
  weight_of traits v = let w = traits.get_int v (codes "weight") in if gt64 w 0 then w else 1

  -- The loop of Apply over the nodes, with Add; the sum of the weights wraps around.
  unfoldable pub add_items : Traits T → List T → Items T × ℕ → Items T × ℕ
  add_items traits [] w = w
  add_items traits (v ∷ vs) (items, sum) =
      add_items traits vs (items ++ (v, weight_of traits v) ∷ [], add64 sum (weight_of traits v))

  -- The loop of Next, and the last item behind it.
  unfoldable pub next_item : ℕ → T → Items T → T
  next_item weight last [] = last
  next_item weight last ((v, w) ∷ items) =
      let left = add64 weight (neg64 w) in
      let rest = next_item left v items in if gt64 left 0 then rest else v

  unfoldable pub next : Draw → Items T × ℕ → Option T
  next d ([], sum) = none
  next d ((v, w) ∷ items, sum) =
      if gt64 sum 0 then some (next_item (add64 (d.intn sum) 1) v ((v, w) ∷ items)) else none

  -- Apply of a strategy, with the counter that it leaves.
  unfoldable pub apply : Traits T → Draw → Strategy → List T → Strategy × Option T
  apply traits d s [] = (s, none)
  apply traits d (round_robin c) (v ∷ vs) =
      let c' = add64 c 1 in
      let n = add64 c' (neg64 1) in (round_robin c', get_elem? (v ∷ vs) (n % length (v ∷ vs)))
  apply traits d random (v ∷ vs) = (random, next d (add_items traits (v ∷ vs) ([], 0)))
  apply traits d fifo (v ∷ vs) = (fifo, some v)
  apply traits d hash (v ∷ vs) = elim d.source [
    | some value ↦ (hash, get_elem? (v ∷ vs) (value % length (v ∷ vs)))
    | none ↦ (hash, get_elem? (v ∷ vs) (d.intn (length (v ∷ vs))))
  ]

  unfoldable pub apply_filters : List (List T → List T) → List T → List T
  apply_filters [] vs = vs
  apply_filters (f ∷ fs) vs = apply_filters fs (f vs)

  -- Select of a defaultSelector.
  unfoldable pub select_one :
      Traits T → Draw → Strategy → List (List T → List T) → List T → Strategy × Option T
  select_one traits d s fs vs =
      let l = apply_filters fs vs in if is_empty l then (s, none) else apply traits d s l
