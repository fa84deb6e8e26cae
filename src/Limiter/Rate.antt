-- ===== src/Limiter/Rate.antt =====
-- limiter/rate/limiter.go and limiter/rate/generator.go: the limiters of requests for a second, their
-- groups and their generators.
pub mod Charged
pub mod Table
mod Tests
use gost_x.Prelude.{
  ℕ, ◌+◌, Bool, true, false, not, ◌&&◌, ◌||◌, Option, none, some, List, [], ◌∷◌, ◌++◌, map, ltb,
  ◌==◌, if◌then◌else◌, is_empty, get_elem?,
}
use mathlib.Core.Option
use gost_x.Text.{Text, eq_text, tabs_to_blanks, trim_space, split_blanks}
use gost_x.Assoc.{Assoc, lookup, insert}
use gost_x.Net.{Libs, Ip, IpNet, parse_ip, parse_cidr}
use gost_x.Loader.{Loader, Event, reload_period, load_patterns, closed_loaders}
use gost_x.Int64.{add64}
use gost_x.Limiter.Table.{
  Options, Setting, apply_all, zero_options, global_limit_key, ip_limit_key, filled,
}

-- Numbers of type float64, with what strconv.ParseFloat returns beside its error, zero, <, <= (which is
-- not the negation of >, for NaN) and int(), and the buckets of golang.org/x/time/rate, with NewLimiter
-- and AllowN at a time.
pub record RateLib : Type 1 where
  pub Float : Type 0
  pub parse_float : Text → Float
  pub zero_float : Float
  pub less : Float → Float → Bool
  pub at_most : Float → Float → Bool
  pub to_int : Float → ℕ
  pub Bucket : Type 0
  pub new_bucket : Float → ℕ → Bucket
  pub allow_n : ℕ → ℕ → Bucket → Bool × Bucket

module _ (rate : RateLib) where
  -- rlimiter: the limit of its bucket, and the bucket.
  pub record RLimiter : Type 0 where
    pub limit : rate.Float
    pub bucket : rate.Bucket

  unfoldable pub new_limiter : rate.Float → ℕ → RLimiter
  new_limiter r b = record { limit = r; bucket = rate.new_bucket r b }

  -- The limiters that there are: the cells below `next`.
  pub record Buckets : Type 0 where
    pub cells : ℕ → RLimiter
    pub next : ℕ

  unfoldable pub write : (ℕ → RLimiter) → ℕ → RLimiter → ℕ → RLimiter
  write h r l j = if r == j then l else h j

  -- NewLimiter, with a burst of one more than the whole requests of a second.
  unfoldable pub alloc : Buckets → rate.Float → Buckets
  alloc st r = record {
    cells = write st.cells st.next (new_limiter r (add64 (rate.to_int r) 1));
    next = st.next + 1;
  }

  -- (*rlimiter).Allow at the time `t`.
  unfoldable pub allow_at : ℕ → ℕ → (ℕ → RLimiter) → ℕ → Bool × (ℕ → RLimiter)
  allow_at t n h r =
      let (b, bucket) = rate.allow_n t n (h r).bucket in
      (b, write h r (record { limit = (h r).limit; bucket = bucket }))

  -- (*limiterGroup).Allow: all limiters are asked, each at its time.
  unfoldable pub allow_all : (ℕ → ℕ) → ℕ → List ℕ → Bool → (ℕ → RLimiter) → Bool × (ℕ → RLimiter)
  allow_all times n [] b h = (b, h)
  allow_all times n (r ∷ rs) b h =
      let (v, h') = allow_at (times r) n h r in allow_all times n rs (if not v then false else b) h'

  unfoldable pub group_allow : (ℕ → ℕ) → ℕ → List ℕ → (ℕ → RLimiter) → Bool × (ℕ → RLimiter)
  group_allow times n rs h = allow_all times n rs true h

  unfoldable pub insert_by : (ℕ → RLimiter) → ℕ → List ℕ → List ℕ
  insert_by h r [] = r ∷ []
  insert_by h r (q ∷ qs) =
      let rest = insert_by h r qs in
      if rate.less (h q).limit (h r).limit then q ∷ rest else r ∷ (q ∷ qs)

  -- sort.Slice in newLimiterGroup.
  unfoldable pub sort_limiters : (ℕ → RLimiter) → List ℕ → List ℕ
  sort_limiters h [] = []
  sort_limiters h (r ∷ rs) = insert_by h r (sort_limiters h rs)

  -- (*limiterGroup).Limit
  unfoldable pub group_limit : (ℕ → RLimiter) → List ℕ → rate.Float
  group_limit h [] = rate.zero_float
  group_limit h (r ∷ rs) = (h r).limit

  -- A generator makes a new limiter for each client, or gives all of them its own.
  pub data Generator : Type 0 where
    each : rate.Float → Generator
    single : Option ℕ → Generator

  -- The test r <= 0, and the test r > 0.
  unfoldable pub is_none : rate.Float → Bool
  is_none r = rate.at_most r rate.zero_float

  unfoldable pub is_positive : rate.Float → Bool
  is_positive r = rate.less rate.zero_float r

  -- NewRateLimitSingleGenerator
  unfoldable pub new_single : rate.Float → Buckets → Generator × Buckets
  new_single r st = if is_positive r then (single (some st.next), alloc st r) else (single none, st)

  -- Limiter of a generator, which may be nil, as the limiters that Limiter of the table appends.
  unfoldable pub take_from : Option Generator → Buckets → List ℕ × Buckets
  take_from none st = ([], st)
  take_from (some (each r)) st = if is_none r then ([], st) else (st.next ∷ [], alloc st r)
  take_from (some (single none)) st = ([], st)
  take_from (some (single (some i))) st = (i ∷ [], st)
