-- ===== src/Auth.antt =====
-- auth/auth.go: the table of users and passwords.
pub mod Table
pub mod Loading
mod Tests
use gost_x.Prelude.{
  ℕ, zero, suc, ◌+◌, Bool, true, false, not, ◌&&◌, ◌||◌, Option, none, some, List, [], ◌∷◌, ◌++◌,
  map, any, is_empty, is_some, take, drop, ltb, if◌then◌else◌,
}
use mathlib.Core.Option
use gost_x.Text.{Text, eq_text, index_byte, trim_space, tabs_to_blanks}
use gost_x.Assoc.{Assoc, lookup, insert, merge}
use gost_x.Loader.{Loader, Loaders, no_loaders, Event, closed_loaders, reload_period}

pub record Options : Type 0 where
  pub auths : Assoc Text
  pub loaders : Loaders
  pub period : ℕ

-- The values of type Option, each by the function that makes it.
pub data Setting : Type 0 where
  auths_option : Assoc Text → Setting
  reload_period_option : ℕ → Setting
  file_loader_option redis_loader_option http_loader_option : Option Loader → Setting

unfoldable pub apply : Setting → Options → Options
apply (auths_option m) o = record o { auths = m }
apply (reload_period_option p) o = record o { period = p }
apply (file_loader_option l) o = record o { loaders = record o.loaders { file = l } }
apply (redis_loader_option l) o = record o { loaders = record o.loaders { redis = l } }
apply (http_loader_option l) o = record o { loaders = record o.loaders { http = l } }

unfoldable pub apply_all : List Setting → Options → Options
apply_all [] o = o
apply_all (s ∷ ss) o = apply_all ss (apply s o)

abbrev pub zero_options : Options
zero_options = record { auths = []; loaders = no_loaders; period = 0 }

pub record Authenticator : Type 0 where
  pub kvs : Assoc Text
  pub options : Options
  pub cancelled : Bool

-- A map that may be nil.
abbrev pub GoMap : Type 0
GoMap = Option (Assoc Text)

-- The entries that a range goes through.
abbrev pub entries : GoMap → Assoc Text
entries none = []
entries (some m) = m

-- strings.SplitN(line, " ", 2)
abbrev pub split_two : Text → Text × Option Text
split_two line = elim (index_byte b' ' line) [
  | none ↦ (line, none)
  | some i ↦ (take i line, some (drop (i + 1) line))
]

-- The words of a line, if it is no comment: '#' counts at the start of the line alone.
abbrev pub put_pair : Text → Option Text → Assoc Text → Assoc Text
put_pair k none m = if is_empty (trim_space k) then m else insert (trim_space k) [] m
put_pair k (some v) m =
    if is_empty (trim_space k) then m else insert (trim_space k) (trim_space v) m

abbrev pub comment : Text → Bool
comment line = elim (index_byte b'#' line) [
  | none ↦ false
  | some n ↦ elim n [ zero ↦ true | suc i ↦ false ]
]

unfoldable pub add_line : Text → Assoc Text → Assoc Text
add_line s m =
    let line = trim_space (tabs_to_blanks s) in
    if comment line then m else put_pair (split_two line).0 (split_two line).1 m

unfoldable pub add_lines : List Text → Assoc Text → Assoc Text
add_lines [] m = m
add_lines (s ∷ ss) m = add_lines ss (add_line s m)

-- The reader as its lines; `none` is nil, for which the map stays nil.
unfoldable pub parse_auths : Option (List Text) → GoMap
parse_auths none = none
parse_auths (some lines) = some (add_lines lines [])

-- for k, v := range n { m[k] = v }: a write to a nil map is a panic, `none`.
unfoldable pub write_all : Assoc Text → GoMap → Option GoMap
write_all [] m = some m
write_all (p ∷ n) none = none
write_all (p ∷ n) (some m) = some (some (merge (p ∷ n) m))

-- The entries of a reader, unless it is nil.
unfoldable pub write_parsed : GoMap → GoMap → Option GoMap
write_parsed none m = some m
write_parsed (some auths) m = write_all auths m

-- p.options.fileLoader.(loader.Mapper)
abbrev pub mapper : Option Loader → Option (ℕ → GoMap)
mapper none = none
mapper (some l) = l.maps

-- A mapper's map is taken as it is, nil too.
unfoldable pub load_file : Option Loader → ℕ → GoMap
load_file none t = some []
load_file (some l) t = elim l.maps [
  | some auths ↦ auths t
  | none ↦ elim (parse_auths (l.loads t)) [ none ↦ some [] | some auths ↦ some auths ]
]

-- The mapper that is asked is the one of the loader of files.
unfoldable pub load_redis : Loaders → ℕ → GoMap → Option GoMap
load_redis ls t m = elim ls.redis [
  | none ↦ some m
  | some l ↦ elim (mapper ls.file) [
    | some auths ↦ write_all (entries (auths t)) m
    | none ↦ write_parsed (parse_auths (l.loads t)) m
  ]
]

unfoldable pub load_http : Option Loader → ℕ → GoMap → Option GoMap
load_http none t m = some m
load_http (some l) t m = write_parsed (parse_auths (l.loads t)) m

unfoldable pub load : Loaders → ℕ → Option GoMap
load ls t = elim (load_redis ls t (load_file ls.file t)) [
  | none ↦ none
  | some m ↦ load_http ls.http t m
]

-- `load` returns no error, so `reload` returns none.
unfoldable pub reload : Options → Bool → ℕ → Option Authenticator
reload o cancelled t = elim (load o.loaders t) [
  | none ↦ none
  | some m ↦
      some
        (record { kvs = merge (entries m) (merge o.auths []); options = o; cancelled = cancelled })
]

-- NewAuthenticator at time t, and the period of the goroutine that it starts, if it starts one.
unfoldable pub new_authenticator : List Setting → ℕ → Option (Authenticator × Option ℕ)
new_authenticator ss t =
    let o = apply_all ss zero_options in
    elim (reload o false t) [
      | none ↦ none
      | some p ↦ some (p, if ltb 0 o.period then some (reload_period o.period) else none)
    ]

-- The goroutine: it stops when the context is done.
unfoldable pub period_reload : List Event → Authenticator → Option Authenticator
period_reload [] p = some p
period_reload (Event.done ∷ es) p = some p
period_reload (Event.tick t ∷ es) p = elim (reload p.options p.cancelled t) [
  | none ↦ none
  | some p' ↦ period_reload es p'
]

-- `none` is the nil authenticator.
unfoldable pub authenticate : Option Authenticator → Text → Text → Bool
authenticate none user password = true
authenticate (some p) user password =
    if is_empty p.kvs
    then true
    else elim (lookup user p.kvs) [ none ↦ false | some v ↦ is_empty v || eq_text password v ]

-- Close, and the loaders that it closes.
unfoldable pub close : Authenticator → Authenticator × List Loader
close p = (record p { cancelled = true }, closed_loaders p.options.loaders)
