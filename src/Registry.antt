-- ===== src/Registry.antt =====
-- registry/registry.go: the registry of named objects, over sync.Map.
use gost_x.Prelude.{
  Bool, true, false, Option, none, some, List, [], ◌∷◌, ◌++◌, if◌then◌else◌, is_empty, is_some,
}
use gost_x.Text.{Text}
use gost_x.Assoc.{Assoc, lookup, insert, delete, has_key}
pub mod Closing
pub mod Names
pub mod Wrappers
mod Tests

module _ {ℓ} {T : Type ℓ} where
  -- ErrDup is true.
  unfoldable pub register : Text → T → Assoc T → Bool × Assoc T
  register name v m =
      if is_empty name
      then (false, m)
      else if has_key name m
      then (true, m)
      else (false, insert name v m)

  -- The objects that are closed, and the map. The argument says whether an object is an io.Closer.
  unfoldable pub unregister : (T → Bool) → Text → Assoc T → List T × Assoc T
  unregister is_closer name m = elim (lookup name m) [
    | none ↦ ([], m)
    | some v ↦ (if is_closer v then v ∷ [] else [], delete name m)
  ]

  unfoldable pub is_registered : Text → Assoc T → Bool
  is_registered name m = has_key name m

  -- `none` is the zero value.
  unfoldable pub get : Text → Assoc T → Option T
  get name m = if is_empty name then none else lookup name m

  unfoldable pub put_all : Assoc T → Assoc T → Assoc T
  put_all [] all' = all'
  put_all ((k, v) ∷ m) all' = put_all m (insert k v all')

  -- GetAll: a new map with the entries of the registry.
  unfoldable pub get_all : Assoc T → Assoc T
  get_all m = put_all m []

pub data Call {ℓ} (T : Type ℓ) : Type ℓ where
  registers : Text → T → Call T
  unregisters : Text → Call T

-- A registry in use: its map, the objects that Register took in, and those that Unregister closed.
pub record Use {ℓ} (T : Type ℓ) : Type ℓ where
  pub entries : Assoc T
  pub taken : List T
  pub closed : List T

module _ {ℓ} {T : Type ℓ} (is_closer : T → Bool) where
  unfoldable pub call : Call T → Use T → Use T
  call (registers name v) u = record {
    entries = (register name v u.entries).1;
    taken =
        if is_empty name then u.taken else if has_key name u.entries then u.taken else v ∷ u.taken;
    closed = u.closed;
  }
  call (unregisters name) u = record {
    entries = (unregister is_closer name u.entries).1;
    taken = u.taken;
    closed = (unregister is_closer name u.entries).0 ++ u.closed;
  }

  unfoldable pub calls : List (Call T) → Use T → Use T
  calls [] u = u
  calls (c ∷ cs) u = calls cs (call c u)

-- A new registry.
abbrev pub unused {ℓ} : {T : Type ℓ} → Use T
unused = record { entries = []; taken = []; closed = [] }
