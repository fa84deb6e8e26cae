-- ===== src/Resolver/Servers/Kept.antt =====
-- What holds of all messages in the cache of the resolver.
use gost_x.Prelude.{
  ℕ, ◌-◌, ◌≡◌, refl, ap, subst, ◌||◌, Bool-cases, inl, inr, Option, some, Option-cases, List,
  is_empty, some_inj, ltb, arith, ◌⊎◌,
}
use gost_x.Text.{Text, eq_text}
use gost_x.Text.Laws.{eq_text_iff}
use gost_x.Assoc.{Assoc, lookup, insert, delete, lookup-insert, lookup-delete}
use gost_x.Int64.{gt64}
use gost_x.Resolver.Cache.{Item, load, store}

-- What holds of every message in a cache, for the key that it is kept under.
abbrev pub AllItems : {M : Type 0} → (Text → M → Type 0) → Assoc (Item M) → Type 0
AllItems {M} Good c = (k : Text) (item : Item M) → lookup k c ≡ some item → Good k item.msg

pub sum-cases : {A B : Type 0} (x : A ⊎ B) → ((a : A) × (x ≡ inl a)) ⊎ ((b : B) × (x ≡ inr b))
sum-cases (inl a) = inl (a, refl)
sum-cases (inr b) = inr (b, refl)

module _ {M : Type 0} (Good : Text → M → Type 0) where
  delete-AllItems : (k : Text) (c : Assoc (Item M)) → AllItems Good c → AllItems Good (delete k c)
  delete-AllItems k c h j item e = elim (Bool-cases (eq_text k j)) [
    | inl f ↦ absurd (ground (arith, lookup-delete k j c))
    | inr f ↦ h j item (ground (arith, lookup-delete k j c))
  ]

  insert-AllItems :
      (k : Text) (v : Item M) (c : Assoc (Item M))
      → Good k v.msg
      → AllItems Good c
      → AllItems Good (insert k v c)
  insert-AllItems k v c g h j item e = elim (Bool-cases (eq_text k j)) [
    | inl f ↦
        subst (λ m. Good j m)
          (ap (λ i. i.msg) (some_inj v item (ground (arith, lookup-insert k j v c))))
          (subst (λ i. Good i v.msg) ((eq_text_iff k j).0 f) g)
    | inr f ↦ h j item (ground (arith, lookup-insert k j v c))
  ]

  -- What Load returns and leaves.
  pub record IsLoaded (k : Text) (r : Option M × Assoc (Item M)) : Type 0 where
    pub found : (m : M) → r.0 ≡ some m → Good k m
    pub items : AllItems Good r.1

  pub load-IsLoaded :
      (now : ℕ) (k : Text) (c : Assoc (Item M)) → AllItems Good c → IsLoaded k (load now k c)
  unfolding load
  load-IsLoaded now k c h = elim (Option-cases (lookup k c)) [
    | inl e ↦ rw (e, load) (record { found = λ m f. absurd cc; items = h })
    | inr (item, e) ↦ elim (Bool-cases (ltb item.ttl (now - item.ts))) [
      | inl f ↦ rw (e, f, load) (record { found = λ m g. absurd cc; items = delete-AllItems k c h })
      | inr f ↦
          rw (e, f, load)
            (record {
              found = λ m g. subst (Good k) (some_inj item.msg m g) (h k item e);
              items = h;
            })
    ]
  ]

  pub store-AllItems :
      (ttls : M → List ℕ) (now : ℕ) (k : Text) (m : M) (ttl : ℕ) (c : Assoc (Item M))
      → Good k m
      → AllItems Good c
      → AllItems Good (store ttls now k (some m) ttl c)
  unfolding store
  store-AllItems ttls now k m ttl c g h = elim (Bool-cases (is_empty k || gt64 0 ttl)) [
    | inl e ↦ rw (e, store) h
    | inr e ↦ rw (e, store) (insert-AllItems k _ c g h)
  ]
