-- ===== src/Registry/Closing.antt =====
-- Each object that a registry takes in is in it or is closed once.
use gost_x.Prelude.{
  ℕ, ◌+◌, ◌≡◌, refl, ap, Bool, true, Bool-cases, none, some, Option-cases, inl, inr, List, [], ◌∷◌,
  if◌then◌else◌, is_empty, arith,
}
use gost_x.Text.{Text, eq_text}
use gost_x.Text.Laws.{eq_text_iff}
use gost_x.Assoc.{Assoc, IsMap, lookup, insert, delete, insert-IsMap, lookup-delete}
use gost_x.Registry.{register, unregister, Call, Use, registers, unregisters, call, calls, unused}

module _ {ℓ} {T : Type ℓ} where
  abbrev pub count_of : (T → Bool) → List T → ℕ
  count_of p [] = 0
  count_of p (v ∷ vs) = (if p v then 1 else 0) + count_of p vs

  abbrev pub count_in : (T → Bool) → Assoc T → ℕ
  count_in p [] = 0
  count_in p ((k, v) ∷ m) = (if p v then 1 else 0) + count_in p m

  count_in-insert :
      (p : T → Bool) (k : Text) (v : T) (m : Assoc T)
      → lookup k m ≡ none
      → count_in p (insert k v m) ≡ (if p v then 1 else 0) + count_in p m
  unfolding insert lookup
  count_in-insert p k v [] e = refl
  count_in-insert p k v ((j, w) ∷ m) e = ground (arith, count_in-insert p k v m)

  delete_missing : (k : Text) (m : Assoc T) → lookup k m ≡ none → delete k m ≡ m
  unfolding delete lookup
  delete_missing k [] e = refl
  delete_missing k ((j, w) ∷ m) e = ground (arith, delete_missing k m)

  count_in-delete :
      (p : T → Bool) (k : Text) (v : T) (m : Assoc T)
      → IsMap m
      → lookup k m ≡ some v
      → count_in p m ≡ (if p v then 1 else 0) + count_in p (delete k m)
  unfolding delete lookup
  count_in-delete p k v [] h e = absurd (cc e)
  count_in-delete p k v ((j, w) ∷ m) h e = elim (Bool-cases (eq_text j k)) [
    | inl q ↦ ground (arith, delete_missing k m, ap (λ i. lookup i m) ((eq_text_iff j k).0 q), h.0)
    | inr q ↦ ground (arith, count_in-delete p k v m h.1)
  ]

  delete-IsMap : (k : Text) (m : Assoc T) → IsMap m → IsMap (delete k m)
  unfolding delete
  delete-IsMap k [] h = tt
  delete-IsMap k ((j, w) ∷ m) h = elim (Bool-cases (eq_text j k)) [
    | inl q ↦ rw q (delete-IsMap k m h.1)
    | inr q ↦ rw q (ground (arith, lookup-delete k j m, h.0), delete-IsMap k m h.1)
  ]

module _ {ℓ} {T : Type ℓ} (is_closer : T → Bool) where
  -- The entries have no name twice, and what was taken in is in them or was closed.
  record IsBalanced (u : Use T) : Type ℓ where
    distinct : IsMap u.entries
    balance :
        (p : T → Bool)
        → ((v : T) → p v ≡ true → is_closer v ≡ true)
        → count_of p u.taken ≡ count_in p u.entries + count_of p u.closed

  register-IsBalanced :
      (k : Text) (v : T) (u : Use T) → IsBalanced u → IsBalanced (call is_closer (registers k v) u)
  unfolding call register
  register-IsBalanced k v u h = elim (Bool-cases (is_empty k)) [
    | inl e ↦ rw e h
    | inr e ↦ elim (Option-cases (lookup k u.entries)) [
      | inr (w, q) ↦ rw (e, q) h
      | inl q ↦
          rw (e, q)
            (record {
              distinct = insert-IsMap k v u.entries h.distinct;
              balance = λ p c. ground (arith, count_in-insert p k v u.entries q, h.balance p c);
            })
    ]
  ]

  unregister-IsBalanced :
      (k : Text) (u : Use T) → IsBalanced u → IsBalanced (call is_closer (unregisters k) u)
  unfolding call unregister
  unregister-IsBalanced k u h = elim (Option-cases (lookup k u.entries)) [
    | inl q ↦ rw (q, call, unregister) h
    | inr (v, q) ↦ elim (Bool-cases (is_closer v)) [
      | inl e ↦
          rw (q, e, call, unregister)
            (record {
              distinct = delete-IsMap k u.entries h.distinct;
              balance = λ p c.
                  ground (arith, count_in-delete p k v u.entries h.distinct q, h.balance p c);
            })
      | inr e ↦
          rw (q, e, call, unregister)
            (record {
              distinct = delete-IsMap k u.entries h.distinct;
              balance = λ p c.
                  ground (arith, count_in-delete p k v u.entries h.distinct q, h.balance p c, c v);
            })
    ]
  ]

  calls-IsBalanced :
      (cs : List (Call T)) (u : Use T) → IsBalanced u → IsBalanced (calls is_closer cs u)
  unfolding calls
  calls-IsBalanced [] u h = h
  calls-IsBalanced (registers k v ∷ cs) u h = calls-IsBalanced cs _ (register-IsBalanced k v u h)
  calls-IsBalanced (unregisters k ∷ cs) u h = calls-IsBalanced cs _ (unregister-IsBalanced k u h)

  -- After any calls of Register and Unregister, one after the other, on a new registry: of the objects of
  -- a kind p that are all closers, those that Register took in are as many as those in the registry and
  -- those that were closed together. So none is lost without Close, and none is closed twice.
  pub count-calls :
      (cs : List (Call T)) (p : T → Bool)
      → ((v : T) → p v ≡ true → is_closer v ≡ true)
      → let u = calls is_closer cs unused in
        count_of p u.taken ≡ count_in p u.entries + count_of p u.closed
  count-calls cs p c =
      (calls-IsBalanced cs unused (record { distinct = tt; balance = λ p c. omega arith })).balance
        p c
