-- ===== src/Limiter/Traffic/Values.antt =====
-- limiter/traffic/traffic.go, the lines of a traffic limiter: its options, load and parseLimit.
use gost_x.Prelude.{
  Bool-cases, inl, inr, ℕ, Option, none, some, List, [], ◌∷◌, ◌++◌, map, is_empty, if◌then◌else◌,
}
use gost_x.Text.{Text, codes, tabs_to_blanks, trim_space, split_blanks}
use gost_x.Assoc.{Assoc, insert, IsMap, insert-IsMap}
use gost_x.Int64.{gt64}
use gost_x.Loader.{Loader, Loaders, no_loaders, parse_line, parse_patterns}
use gost_x.Limiter.Table.{filled}
use gost_x.Limiter.Traffic.{Rates}

abbrev pub global_limit_key : Text
global_limit_key = codes "$"

abbrev pub conn_limit_key : Text
conn_limit_key = codes "$$"

pub record Options : Type 0 where
  pub limits : List Text
  pub loaders : Loaders
  pub period : ℕ

-- The values of type Option, each by the function that makes it.
pub data Setting : Type 0 where
  limits_option : List Text → Setting
  reload_period_option : ℕ → Setting
  file_loader_option redis_loader_option http_loader_option : Option Loader → Setting

unfoldable pub apply : Setting → Options → Options
apply (limits_option ls) o = record o { limits = ls }
apply (reload_period_option p) o = record o { period = p }
apply (file_loader_option l) o = record o { loaders = record o.loaders { file = l } }
apply (redis_loader_option l) o = record o { loaders = record o.loaders { redis = l } }
apply (http_loader_option l) o = record o { loaders = record o.loaders { http = l } }

unfoldable pub apply_all : List Setting → Options → Options
apply_all [] o = o
apply_all (s ∷ ss) o = apply_all ss (apply s o)

abbrev pub zero_options : Options
zero_options = record { limits = []; loaders = no_loaders; period = 0 }

-- The zero value of limitValue; `Rates` stands for it and for limitGenerator.
abbrev pub no_rates : Rates
no_rates = record { inward = 0; outward = 0 }

-- if v, _ := units.ParseBase2Bytes(s); v > 0 { in = int(v) }, for the number `v` of that function.
unfoldable pub rate_of : ℕ → ℕ
rate_of v = if gt64 v 0 then v else 0

-- The words of a line "key in [out]"; further words are ignored. `parse_bytes` is
-- units.ParseBase2Bytes without its error, as a word of 64 bits.
unfoldable pub limit_of : (Text → ℕ) → List Text → Text × Rates
limit_of parse_bytes [] = ([], no_rates)
limit_of parse_bytes (k ∷ []) = ([], no_rates)
limit_of parse_bytes (k ∷ (i ∷ [])) = (k, record { inward = rate_of (parse_bytes i); outward = 0 })
limit_of parse_bytes (k ∷ (i ∷ (o ∷ rest))) =
    (k, record { inward = rate_of (parse_bytes i); outward = rate_of (parse_bytes o) })

unfoldable pub parse_limit : (Text → ℕ) → Text → Text × Rates
unfolding filled
parse_limit parse_bytes s =
    limit_of parse_bytes (filled (split_blanks (trim_space (tabs_to_blanks s))))

-- One round of a loop over lines in `load`.
unfoldable pub add_value : (Text → ℕ) → Text → Assoc Rates → Assoc Rates
add_value parse_bytes s values =
    let (key, v) = parse_limit parse_bytes s in if is_empty key then values else insert key v values

unfoldable pub add_values : (Text → ℕ) → List Text → Assoc Rates → Assoc Rates
add_values parse_bytes [] values = values
add_values parse_bytes (s ∷ ss) values = add_values parse_bytes ss (add_value parse_bytes s values)

-- The items of the file loader or of the one of redis: those of a loader.Lister as they are.
unfoldable pub listed : Option Loader → ℕ → List Text
listed none t = []
listed (some l) t = elim l.lists [ some list ↦ list t | none ↦ parse_patterns (l.loads t) ]

unfoldable pub loaded : Option Loader → ℕ → List Text
loaded none t = []
loaded (some l) t = parse_patterns (l.loads t)

-- The items of the three loaders at time t.
abbrev pub items_of : Options → ℕ → List Text
items_of o t = listed o.loaders.file t ++ listed o.loaders.redis t ++ loaded o.loaders.http t

-- load at time t.
unfoldable pub load : (Text → ℕ) → Options → ℕ → Assoc Rates
load parse_bytes o t =
    let items = listed o.loaders.file t ++ listed o.loaders.redis t ++ loaded o.loaders.http t in
    add_values parse_bytes (o.limits ++ map parse_line items) []

module _ (parse_bytes : Text → ℕ) where
  add_value-IsMap :
      (s : Text) (values : Assoc Rates) → IsMap values → IsMap (add_value parse_bytes s values)
  unfolding add_value
  add_value-IsMap s values h = elim (Bool-cases (is_empty (parse_limit parse_bytes s).0)) [
    | inl e ↦ rw e h
    | inr e ↦
        rw e (insert-IsMap (parse_limit parse_bytes s).0 (parse_limit parse_bytes s).1 values h)
  ]

  add_values-IsMap :
      (ss : List Text) (values : Assoc Rates)
      → IsMap values
      → IsMap (add_values parse_bytes ss values)
  unfolding add_values
  add_values-IsMap [] values h = h
  add_values-IsMap (s ∷ ss) values h =
      add_values-IsMap ss (add_value parse_bytes s values) (add_value-IsMap s values h)

  pub load-IsMap : (o : Options) (t : ℕ) → IsMap (load parse_bytes o t)
  unfolding load
  load-IsMap o t = add_values-IsMap (o.limits ++ map parse_line (items_of o t)) [] tt
