-- ===== src/Registry/Names.antt =====
-- A registry as a function of names.
use gost_x.Prelude.{
  ◌≡◌, refl, ◌∙◌, ap, fun_ext, Bool, not, ◌&&◌, Option, none, some, Option-cases, inl, inr, List,
  [], ◌∷◌, if◌then◌else◌, is_empty, is_some, or_else, arith,
}
use gost_x.Text.{Text, eq_text}
use gost_x.Text.Laws.{eq_text_iff}
use gost_x.Assoc.{lookup, lookup-delete, lookup-insert, lookup_nil}
use gost_x.Registry.{
  register, unregister, get, is_registered, Call, Use, registers, unregisters, call, calls, unused,
}

module _ {ℓ} {T : Type ℓ} where
  -- What a call makes of the objects by their names: the first that is registered stays.
  abbrev pub renamed : Call T → (Text → Option T) → Text → Option T
  renamed (registers k v) f j =
      if eq_text k j && not (is_empty k) then or_else (f j) (some v) else f j
  renamed (unregisters k) f j = if eq_text k j then none else f j

  abbrev pub renamed_all : List (Call T) → (Text → Option T) → Text → Option T
  renamed_all [] f = f
  renamed_all (c ∷ cs) f = renamed_all cs (renamed c f)

  lookup-call :
      (is_closer : T → Bool) (c : Call T) (u : Use T) (j : Text)
      → lookup j (call is_closer c u).entries ≡ renamed c (λ i. lookup i u.entries) j
  unfolding call register unregister
  lookup-call is_closer (registers k v) u j = elim (Option-cases (lookup k u.entries)) [
    | inl e ↦ ground (arith, lookup-insert k j v u.entries, eq_text_iff k j)
    | inr (w, e) ↦ ground (arith, eq_text_iff k j)
  ]
  lookup-call is_closer (unregisters k) u j = elim (Option-cases (lookup k u.entries)) [
    | inl e ↦ ground (arith, eq_text_iff k j)
    | inr (w, e) ↦ ground (arith, lookup-delete k j u.entries)
  ]

  pub lookup-calls :
      (is_closer : T → Bool) (cs : List (Call T)) (u : Use T) (j : Text)
      → lookup j (calls is_closer cs u).entries ≡ renamed_all cs (λ i. lookup i u.entries) j
  unfolding calls
  lookup-calls is_closer [] u j = refl
  lookup-calls is_closer (c ∷ cs) u j =
      lookup-calls is_closer cs (call is_closer c u) j
      ∙ ap (λ f. renamed_all cs f j) (fun_ext λ i. lookup-call is_closer c u i)

  -- After any calls of Register and Unregister, one after the other, on a new registry: IsRegistered and,
  -- for a name that is not empty, Get tell what the calls make of the names, where a second Register of a
  -- name does nothing until the name is unregistered, and the empty name is never taken.
  pub get-calls :
      (is_closer : T → Bool) (cs : List (Call T)) (name : Text)
      → let u = calls is_closer cs unused in
        (is_registered name u.entries ≡ is_some (renamed_all cs (λ i. none) name))
        × (get name u.entries ≡ (if is_empty name then none else renamed_all cs (λ i. none) name))
  unfolding is_registered get
  get-calls is_closer cs name =
      (ap is_some found, ap (λ o. if is_empty name then none else o) found)
    where
      found : lookup name (calls is_closer cs unused).entries ≡ renamed_all cs (λ i. none) name
      found =
          lookup-calls is_closer cs unused name
          ∙ ap (λ f. renamed_all cs f name) (fun_ext λ i. lookup_nil {V = T} i)
