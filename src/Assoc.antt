-- ===== src/Assoc.antt =====
-- Go's map[string]V. A key stands once, in the order of first insertion; Go leaves the order of a
-- range over a map open, and where the repository ranges over one the order does not matter.
use gost_x.Prelude.{
  ◌≡◌, refl, Bool, false, ◌&&◌, Option, none, some, Bool-cases, inl, inr, ap, List, [], ◌∷◌, arith,
  if◌then◌else◌, is_some, is_empty, or_else,
}
use gost_x.Text.{Text, eq_text}
use gost_x.Text.Laws.{eq_text_iff, eq_text_refl}

abbrev pub Assoc {ℓ} : Type ℓ → Type ℓ
Assoc V = List (Text × V)

module _ {ℓ} {V : Type ℓ} where
  unfoldable pub lookup : Text → Assoc V → Option V
  lookup k [] = none
  lookup k ((j, v) ∷ m) = if eq_text j k then some v else lookup k m

  unfoldable pub insert : Text → V → Assoc V → Assoc V
  insert k v [] = (k, v) ∷ []
  insert k v ((j, w) ∷ m) = if eq_text j k then (k, v) ∷ m else (j, w) ∷ insert k v m

  unfoldable pub delete : Text → Assoc V → Assoc V
  delete k [] = []
  delete k ((j, v) ∷ m) = let rest = delete k m in if eq_text j k then rest else (j, v) ∷ rest

  abbrev pub has_key : Text → Assoc V → Bool
  has_key k m = is_some (lookup k m)

  -- for k, v := range n { m[k] = v }
  unfoldable pub merge : Assoc V → Assoc V → Assoc V
  merge [] m = m
  merge ((k, v) ∷ n) m = merge n (insert k v m)

  pub lookup-insert :
      (k j : Text) (v : V) (m : Assoc V)
      → lookup j (insert k v m) ≡ (if eq_text k j then some v else lookup j m)
  unfolding lookup insert
  lookup-insert k j v [] = refl
  lookup-insert k j v ((i, w) ∷ m) =
      ground (arith, eq_text_iff k j, eq_text_iff i k, eq_text_iff i j, lookup-insert k j v m)

  pub lookup-delete :
      (k j : Text) (m : Assoc V)
      → lookup j (delete k m) ≡ (if eq_text k j then none else lookup j m)
  unfolding lookup delete
  lookup-delete k j [] = ground arith
  lookup-delete k j ((i, w) ∷ m) =
      ground (arith, eq_text_iff k j, eq_text_iff i k, eq_text_iff i j, lookup-delete k j m)

  pub lookup-insert_self : (k : Text) (v : V) (m : Assoc V) → lookup k (insert k v m) ≡ some v
  lookup-insert_self k v m = ground (arith, lookup-insert k k v m, eq_text_refl k)

pub ruleset assoc_laws = (lookup-insert, lookup-delete, lookup-insert_self)

-- No key stands twice, as in every Go map.
abbrev pub IsMap {ℓ} : {V : Type ℓ} → Assoc V → Type ℓ
IsMap [] = Unit
IsMap ((k, v) ∷ m) = (lookup k m ≡ none) × IsMap m

module _ {ℓ} {V : Type ℓ} where
  pub lookup_nil : (k : Text) → lookup {V = V} k [] ≡ none
  unfolding lookup
  lookup_nil k = refl

  pub insert-IsMap : (k : Text) (v : V) (m : Assoc V) → IsMap m → IsMap (insert k v m)
  unfolding insert
  insert-IsMap k v [] h = (lookup_nil k, tt)
  insert-IsMap k v ((j, w) ∷ m) h = elim (Bool-cases (eq_text j k)) [
    | inl e ↦ rw e (cc (h.0, ap (λ i. lookup i m) ((eq_text_iff j k).0 e)), h.1)
    | inr e ↦ rw e (
      ground (arith, lookup-insert k j v m, eq_text_iff k j, eq_text_iff j k),
      insert-IsMap k v m h.1,
    )
  ]

  pub delete-IsMap : (k : Text) (m : Assoc V) → IsMap m → IsMap (delete k m)
  unfolding delete
  delete-IsMap k [] h = tt
  delete-IsMap k ((j, v) ∷ m) h = elim (Bool-cases (eq_text j k)) [
    | inl e ↦ rw e (delete-IsMap k m h.1)
    | inr e ↦ rw e (ground (arith, lookup-delete k j m), delete-IsMap k m h.1)
  ]

  is_empty-insert : (k : Text) (v : V) (m : Assoc V) → is_empty (insert k v m) ≡ false
  unfolding insert
  is_empty-insert k v [] = refl
  is_empty-insert k v ((j, w) ∷ m) = ground arith

  -- The entries that are written last count.
  pub lookup-merge :
      (k : Text) (n m : Assoc V)
      → IsMap n
      → lookup k (merge n m) ≡ or_else (lookup k n) (lookup k m)
  unfolding merge lookup
  lookup-merge k [] m h = refl
  lookup-merge k ((j, v) ∷ n) m h =
      ground (arith, lookup-merge k n (insert j v m) h.1, lookup-insert j k v m, eq_text_iff j k)

  pub is_empty-merge : (n m : Assoc V) → is_empty (merge n m) ≡ (is_empty n && is_empty m)
  unfolding merge
  is_empty-merge [] m = refl
  is_empty-merge ((k, v) ∷ n) m =
      ground (arith, is_empty-merge n (insert k v m), is_empty-insert k v m)
