-- ===== src/Text.antt =====
-- Go strings as the sequence of their code points, and the functions of package strings that the
-- repository calls. A string that is not valid UTF-8 is not modelled.
pub mod Laws
pub mod Labels
pub mod Words
use Prim.Native.Char.{code}
use Prim.Native.String.{String}
use gost_x.Prelude.{
  ℕ, zero, suc, ◌+◌, Bool, true, false, ◌&&◌, ◌||◌, Option, none, some, List, [], ◌∷◌, ◌++◌, map,
  length, drop, take, is_empty, select, any, ltb, leb, ◌==◌, if◌then◌else◌, not,
}
use mathlib.Core.Option
use mathlib.Core.List.{reverse}

abbrev pub Text : Type 0
Text = List ℕ

-- A literal.
abbrev pub codes : String → Text
codes String.[] = []
codes (String.◌∷◌ c s) = code c ∷ codes s

-- `==` on strings.
unfoldable pub eq_text : Text → Text → Bool
eq_text [] [] = true
eq_text (a ∷ s) (b ∷ t) = (a == b) && eq_text s t
eq_text _ _ = false

-- strings.IndexByte; `none` is -1.
unfoldable pub index_byte : ℕ → Text → Option ℕ
index_byte c [] = none
index_byte c (a ∷ s) = if a == c then some 0 else Option.map suc (index_byte c s)

-- strings.LastIndexByte
unfoldable pub last_index_byte : ℕ → Text → Option ℕ
last_index_byte c [] = none
last_index_byte c (a ∷ s) = elim (last_index_byte c s) [
  | some i ↦ some (suc i)
  | none ↦ if a == c then some 0 else none
]

-- strings.ContainsAny
unfoldable pub contains_any : Text → Text → Bool
contains_any s chars = any (λ a. any (λ c. a == c) chars) s

-- strings.HasPrefix, strings.HasSuffix
unfoldable pub has_prefix : Text → Text → Bool
has_prefix s [] = true
has_prefix [] (b ∷ p) = false
has_prefix (a ∷ s) (b ∷ p) = (a == b) && has_prefix s p

unfoldable pub has_suffix : Text → Text → Bool
unfolding has_prefix
has_suffix s p = has_prefix (reverse s) (reverse p)

-- unicode.IsSpace
unfoldable pub is_space : ℕ → Bool
is_space c =
    (leb 9 c && leb c 13)
    || c == 32
    || c == 0x85
    || c == 0xa0
    || c == 0x1680
    || (leb 0x2000 c && leb c 0x200a)
    || c == 0x2028
    || c == 0x2029
    || c == 0x202f
    || c == 0x205f
    || c == 0x3000

unfoldable pub trim_left : Text → Text
unfolding is_space
trim_left [] = []
trim_left (a ∷ s) = let rest = trim_left s in if is_space a then rest else a ∷ s

-- strings.TrimSpace
unfoldable pub trim_space : Text → Text
unfolding trim_left
trim_space s = reverse (trim_left (reverse (trim_left s)))

-- strings.Replace(s, "\t", " ", -1)
unfoldable pub tabs_to_blanks : Text → Text
tabs_to_blanks s = map (λ a. if a == 9 then 32 else a) s

-- strings.Split(s, " "): the current word and those after it.
unfoldable pub split_from : Text → Text → List Text
split_from cur [] = cur ∷ []
split_from cur (a ∷ s) =
    let closed = cur ∷ split_from [] s in
    let longer = split_from (cur ++ a ∷ []) s in if a == 32 then closed else longer

unfoldable pub split_blanks : Text → List Text
unfolding split_from
split_blanks s = split_from [] s

-- What stands before the first `c`, or all.
unfoldable pub before : ℕ → Text → Text
unfolding index_byte
before c s = elim (index_byte c s) [ none ↦ s | some n ↦ take n s ]

-- The words of a line, each trimmed and none empty: the loop over strings.Split(line, " ") in
-- the table parsers.
unfoldable pub fields : Text → List Text
unfolding split_blanks trim_space
fields line = select (λ w. not (is_empty w)) (map trim_space (split_blanks line))

-- The front of the line parsers of the host table and the ingress: tabs are blanks, the line is
-- trimmed, what follows '#' is cut off, and the rest is split into words.
unfoldable pub line_fields : Text → List Text
line_fields s = fields (before b'#' (trim_space (tabs_to_blanks s)))
