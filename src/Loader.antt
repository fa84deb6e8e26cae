-- ===== src/Loader.antt =====
-- The loaders that the rule tables read (internal/loader/loader.go), and the loading of a list of
-- patterns, which bypass/bypass.go, admission/admission.go and the limiters share word for word.
use gost_x.Prelude.{
  ℕ, Bool, not, Option, none, some, List, [], ◌∷◌, ◌++◌, map, is_empty, select, ltb, if◌then◌else◌,
}
use gost_x.Text.{Text, before, trim_space}
use gost_x.Assoc.{Assoc}

-- A loader.Loader as what it answers at a time. `lists` is there if it is a loader.Lister, `maps` if
-- it is a loader.Mapper. `loads` is the reader as the lines that bufio.Scanner finds in it, `none`
-- for nil. An error is only logged by the callers, so what counts is the value that comes with it.
pub record Loader : Type 0 where
  pub lists : Option (ℕ → List Text)
  pub maps : Option (ℕ → Option (Assoc Text))
  pub loads : ℕ → Option (List Text)

-- The three loaders of an options struct.
pub record Loaders : Type 0 where
  pub file : Option Loader
  pub redis : Option Loader
  pub http : Option Loader

abbrev pub no_loaders : Loaders
no_loaders = record { file = none; redis = none; http = none }

-- time.Second, in nanoseconds.
abbrev pub second : ℕ
second = 1_000_000_000

-- The period of the ticker in periodReload.
unfoldable pub reload_period : ℕ → ℕ
reload_period period = if ltb period second then second else period

-- What the goroutine of periodReload selects: a tick of the ticker, at a time, or ctx.Done().
pub data Event : Type 0 where
  tick : ℕ → Event
  done : Event

-- parseLine: what stands before '#', trimmed.
unfoldable pub parse_line : Text → Text
unfolding before
parse_line s = trim_space (before b'#' s)

abbrev not_empty : Text → Bool
not_empty s = not (is_empty s)

-- The loops over a list and over the lines of a reader: empty lines are dropped.
unfoldable pub parse_patterns : Option (List Text) → List Text
unfolding parse_line
parse_patterns none = []
parse_patterns (some lines) = select not_empty (map parse_line lines)

unfoldable pub load_file : Option Loader → ℕ → List Text
unfolding parse_patterns
load_file none t = []
load_file (some l) t = elim l.lists [
  | some list ↦ parse_patterns (some (list t))
  | none ↦ parse_patterns (l.loads t)
]

-- The items of a redis list are taken as they are.
unfoldable pub load_redis : Option Loader → ℕ → List Text
unfolding parse_patterns
load_redis none t = []
load_redis (some l) t = elim l.lists [ some list ↦ list t | none ↦ parse_patterns (l.loads t) ]

unfoldable pub load_http : Option Loader → ℕ → List Text
unfolding parse_patterns
load_http none t = []
load_http (some l) t = parse_patterns (l.loads t)

unfoldable pub load_patterns : Loaders → ℕ → List Text
load_patterns l t = load_file l.file t ++ load_redis l.redis t ++ load_http l.http t

-- Close closes the loader of files and the one of redis, if they are set, and not the one of HTTP.
unfoldable pub closed_loaders : Loaders → List Loader
closed_loaders l = closed l.file ++ closed l.redis
  where
    closed : Option Loader → List Loader
    closed none = []
    closed (some x) = x ∷ []
