-- ===== src/Limiter/Rate/Tests.antt =====
-- Rate limiters over buckets that are never filled again.
use gost_x.Prelude.{
  ℕ, ◌-◌, ◌≡◌, refl, Bool, true, false, Option, none, some, List, [], ◌∷◌, leb, ltb, map,
  if◌then◌else◌,
}
use gost_x.Text.{Text, codes}
use gost_x.Code.{table_code}
use gost_x.Samples.{libs, in_network}
use gost_x.Int64.{add64, gt64, atoi}
use gost_x.Loader.{no_loaders}
use gost_x.Limiter.Conn.Bump.{has}
use gost_x.Limiter.Table.{Options, filled}
use gost_x.Limiter.Rate.{
  RateLib, RLimiter, Buckets, write, new_limiter, alloc, allow_at, allow_all, group_allow,
  insert_by, sort_limiters, is_none, is_positive, new_single, take_from,
}
use gost_x.Limiter.Rate.Table.{
  parse_limit, put_single, put_limit, add_limit, add_limits, reload, containing, own_limiters,
  client_limiters, make_group, limiter,
}
use gost_x.Limiter.Rate.Charged.{all_allow, charged, group_allow-charged}

abbrev spend : ℕ → ℕ → Bool × ℕ
spend n b = if leb n b then (true, b - n) else (false, b)

abbrev whole : RateLib
whole = record {
  Float = ℕ;
  parse_float = atoi;
  zero_float = 0;
  less = ltb;
  at_most = leb;
  to_int = λ r. r;
  Bucket = ℕ;
  new_bucket = λ r b. b;
  allow_n = λ t n b. spend n b;
}

abbrev options : Options
options = record {
  limits =
      codes "$ 4" ∷ codes "$$ 2" ∷ codes "10.0.0.0/8\t7" ∷ codes "10.1.1.1 3" ∷ codes "bad 1" ∷ [];
  loaders = no_loaders;
  period = 0;
}

abbrev empty : Buckets whole
empty = record { cells = λ r. new_limiter whole 0 0; next = 0 }

-- The limits in the group of a client.
limits_of : Text → Option (List ℕ)
unfolding table_code new_limiter alloc filled parse_limit put_single put_limit new_single add_limit
    add_limits reload take_from containing own_limiters client_limiters insert_by sort_limiters
    make_group limiter is_none is_positive atoi gt64 add64 write libs in_network
limits_of key =
    let (g, (l, st)) = limiter whole libs key (reload whole options false 0 empty) in
    elim g [ none ↦ none | some rs ↦ some (map (λ r. (st.cells r).limit) rs) ]

limits_of_three :
    (limits_of (codes "10.1.1.1") ≡ some (3 ∷ 4 ∷ []))
    × (limits_of (codes "10.1.1.2") ≡ some (4 ∷ 7 ∷ []))
    × (limits_of (codes "::1") ≡ some (2 ∷ 4 ∷ []))
unfolding limits_of
limits_of_three = (refl, refl, refl)

abbrev two_buckets : ℕ → RLimiter whole
two_buckets r = record { limit = r; bucket = if leb r 0 then 3 else 8 }

-- Of the two limiters the first refuses 5 requests; the second is charged for them all the same.
refused_and_charged :
    let (b, h) = group_allow whole (λ r. 0) 5 (0 ∷ 1 ∷ []) two_buckets in
    (b ≡ false) × ((h 0).bucket ≡ 3) × ((h 1).bucket ≡ 3)
unfolding write allow_at allow_all group_allow
refused_and_charged = (refl, refl, refl)

group_allow-charged_example :
    let r = group_allow whole (λ r. 0) 5 (0 ∷ 1 ∷ []) two_buckets in
    (r.0 ≡ all_allow whole (λ r. 0) 5 two_buckets (0 ∷ 1 ∷ []))
    × ((j : ℕ)
        → r.1 j
          ≡ (if has j (0 ∷ 1 ∷ []) then charged whole (λ r. 0) 5 two_buckets j else two_buckets j))
group_allow-charged_example =
    group_allow-charged whole (λ r. 0) 5 (0 ∷ 1 ∷ []) two_buckets (refl, (refl, tt))
