-- ===== src/Auth/Table.antt =====
-- What Authenticate answers after a reload.
use gost_x.Prelude.{
  ℕ, ◌≡◌, Bool, false, ◌&&◌, ◌||◌, Option, none, some, Bool-cases, inl, inr, List, [], ◌∷◌,
  is_empty, or_else, arith,
}
use gost_x.Text.{Text, eq_text, trim_space, tabs_to_blanks}
use gost_x.Assoc.{
  Assoc, IsMap, lookup, merge, insert-IsMap, lookup-merge, is_empty-merge, lookup_nil,
}
use gost_x.Auth.{
  Options, Authenticator, GoMap, entries, comment, put_pair, add_line, add_lines, parse_auths, load,
  reload, authenticate,
}

-- The password is right for the entry of a user.
abbrev pub allowed : Text → Option Text → Bool
allowed password none = false
allowed password (some v) = is_empty v || eq_text password v

-- After a reload that loaded the map m without a panic, everybody is let in if there is no entry at
-- all; otherwise a user is let in exactly if there is an entry for the user, the loaded one before the
-- configured one, whose password is empty or the one given.
pub authenticate-reload :
    (o : Options) (c : Bool) (t : ℕ) (m : GoMap) (p : Authenticator) (user password : Text)
    → load o.loaders t ≡ some m
    → IsMap (entries m)
    → IsMap o.auths
    → reload o c t ≡ some p
    → authenticate (some p) user password ≡ (
        (is_empty (entries m) && is_empty o.auths)
        || allowed password (or_else (lookup user (entries m)) (lookup user o.auths)))
unfolding reload authenticate
authenticate-reload o c t m p user password e hm ha r = ground (
  arith,
  kvs,
  lookup-merge user (entries m) (merge o.auths []) hm,
  lookup-merge user o.auths [] ha,
  is_empty-merge (entries m) (merge o.auths []),
  is_empty-merge o.auths [],
  lookup_nil {V = Text} user,
)
  where
    kvs : p.kvs ≡ merge (entries m) (merge o.auths [])
    kvs = ground arith

put_pair-IsMap : (k : Text) (v : Option Text) (m : Assoc Text) → IsMap m → IsMap (put_pair k v m)
put_pair-IsMap k none m h = elim (Bool-cases (is_empty (trim_space k))) [
  | inl e ↦ rw (e, IsMap) h
  | inr e ↦ rw (e, IsMap) (insert-IsMap (trim_space k) [] m h)
]
put_pair-IsMap k (some v) m h = elim (Bool-cases (is_empty (trim_space k))) [
  | inl e ↦ rw (e, IsMap) h
  | inr e ↦ rw (e, IsMap) (insert-IsMap (trim_space k) (trim_space v) m h)
]

add_line-IsMap : (s : Text) (m : Assoc Text) → IsMap m → IsMap (add_line s m)
unfolding add_line
add_line-IsMap s m h = elim (Bool-cases (comment (trim_space (tabs_to_blanks s)))) [
  | inl e ↦ rw (e, IsMap) h
  | inr e ↦ rw (e, IsMap) (put_pair-IsMap _ _ m h)
]

add_lines-IsMap : (ss : List Text) (m : Assoc Text) → IsMap m → IsMap (add_lines ss m)
unfolding add_lines
add_lines-IsMap [] m h = h
add_lines-IsMap (s ∷ ss) m h = add_lines-IsMap ss (add_line s m) (add_line-IsMap s m h)

-- The entries of a text have no key twice.
pub parse_auths-IsMap : (lines : Option (List Text)) → IsMap (entries (parse_auths lines))
unfolding parse_auths
parse_auths-IsMap none = tt
parse_auths-IsMap (some lines) = add_lines-IsMap lines [] tt
