-- ===== src/Limiter/Table/Keeping.antt =====
-- The table keeps the group of a client, and all groups share the counter of the key "$".
use gost_x.Prelude.{
  ℕ, ◌≡◌, refl, sym, ◌∙◌, ap, true, false, Option, none, some, Option-cases, List, [], ◌∷◌, ◌++◌,
  inl, inr, is_empty, ==_refl, arith,
}
use gost_x.Text.{Text}
use gost_x.Assoc.{lookup, insert, lookup-insert_self}
use gost_x.Net.{Libs}
use gost_x.Limiter.Conn.Bump.{has}
use gost_x.Limiter.Table.{
  Store, single, take_from, ConnLimiter, global_limit_key, client_counters, sort_counters,
  make_group, limiter,
}
use gost_x.Limiter.Table.Sorting.{has-sort_counters}
use gost_x.Limiter.Table.Making.{has-append}

kept :
    (libs : Libs) (key : Text) (l : ConnLimiter) (st : Store) (g : Option (List ℕ))
    → lookup key l.limits ≡ some g
    → limiter libs key (l, st) ≡ (g, (l, st))
unfolding limiter
kept libs key l st g e = ground arith

made :
    (libs : Libs) (key : Text) (l : ConnLimiter) (st : Store)
    → lookup key l.limits ≡ none
    → limiter libs key (l, st) ≡ (
      (make_group libs l key st).0,
      (
        record l { limits = insert key (make_group libs l key st).0 l.limits },
        (make_group libs l key st).1,
      ),
    )
unfolding limiter
made libs key l st e = ground arith

-- Asked again for a client, Limiter returns the group that it returned before, and changes nothing.
limiter-limiter :
    (libs : Libs) (key : Text) (w : ConnLimiter × Store)
    → limiter libs key (limiter libs key w).1 ≡ limiter libs key w
limiter-limiter libs key (l, st) = elim (Option-cases (lookup key l.limits)) [
  | inr (g, e) ↦ ap (λ x. limiter libs key x.1) (kept libs key l st g e)
  | inl e ↦
      ap (λ x. limiter libs key x.1) (made libs key l st e)
      ∙ kept libs key _ (make_group libs l key st).1 (make_group libs l key st).0
          (lookup-insert_self key (make_group libs l key st).0 l.limits)
      ∙ sym (made libs key l st e)
]

is_empty_last : (rs : List ℕ) (r : ℕ) → is_empty (rs ++ r ∷ []) ≡ false
is_empty_last [] r = refl
is_empty_last (q ∷ rs) r = refl

make_group_global :
    (libs : Libs) (key : Text) (l : ConnLimiter) (st : Store) (r : ℕ)
    → lookup global_limit_key l.ip_limits ≡ some (single (some r))
    → (make_group libs l key st).0
      ≡ some (
          sort_counters
            (client_counters libs l key st).1.cells
            ((client_counters libs l key st).0 ++ r ∷ []))
unfolding make_group take_from
make_group_global libs key l st r g = rw (g, is_empty_last (client_counters libs l key st).0 r) refl

-- A client that asks for the first time gets a group with the counter r, if r is that of the key "$":
-- the limit of "$" is one for all clients together. Asked again, Limiter returns the same group, and
-- changes nothing.
pub limiter-global :
    (libs : Libs) (key : Text) (l : ConnLimiter) (st : Store) (r : ℕ)
    → lookup key l.limits ≡ none
    → lookup global_limit_key l.ip_limits ≡ some (single (some r))
    → (rs : List ℕ) × ((limiter libs key (l, st)).0 ≡ some rs)
      × (has r rs ≡ true)
      × (limiter libs key (limiter libs key (l, st)).1 ≡ limiter libs key (l, st))
limiter-global libs key l st r e g =
    let w = client_counters libs l key st in
    (
      sort_counters w.1.cells (w.0 ++ r ∷ []),
      ap (λ x. x.0) (made libs key l st e) ∙ make_group_global libs key l st r g,
      ground (
        arith,
        has-sort_counters w.1.cells r (w.0 ++ r ∷ []),
        has-append r w.0 (r ∷ []),
        ==_refl r,
      ),
      limiter-limiter libs key (l, st),
    )
