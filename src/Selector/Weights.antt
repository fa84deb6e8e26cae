-- ===== src/Selector/Weights.antt =====
-- The weighted random choice: each node has as many of the random numbers as its weight.
use gost_x.Prelude.{
  ℕ, ◌+◌, ◌-◌, ◌<◌, ◌≤◌, ◌≡◌, refl, ◌∙◌, ap, true, false, some, List, [], ◌∷◌, ◌++◌, append-nil,
  append_assoc, is_empty, arith,
}
use gost_x.Int64.{add64, neg64, gt64, sign_bit}
use gost_x.Selector.{Traits, Draw, random, Items, weight_of, add_items, next_item, next, apply}

positive : (n : ℕ) → 0 < n → n < sign_bit → gt64 n 0 ≡ true
unfolding gt64
positive n p q = ground arith

plus_one : (n : ℕ) → n < sign_bit → add64 n 1 ≡ n + 1
unfolding add64
plus_one n p = omega arith

module _ {ℓ} {T : Type ℓ} (traits : Traits T) where
  abbrev pub total : List T → ℕ
  total [] = 0
  total (v ∷ vs) = weight_of traits v + total vs

  weighed : List T → Items T
  weighed [] = []
  weighed (v ∷ vs) = (v, weight_of traits v) ∷ weighed vs

  weight_pos : (v : T) → 0 < weight_of traits v
  unfolding weight_of gt64
  weight_pos v = ground arith

  total-append : (us vs : List T) → total (us ++ vs) ≡ total us + total vs
  total-append [] vs = omega arith
  total-append (u ∷ us) vs = omega (arith, total-append us vs)

  add_items-weighed :
      (vs : List T) (items : Items T) (s : ℕ)
      → s + total vs < sign_bit
      → add_items traits vs (items, s) ≡ (items ++ weighed vs, s + total vs)
  unfolding add_items add64 weighed
  add_items-weighed [] items s p = ground (arith, append-nil items)
  add_items-weighed (v ∷ vs) items s p =
      ap (λ n. add_items traits vs (items ++ (v, weight_of traits v) ∷ [], n)) (omega arith)
      ∙ add_items-weighed vs (items ++ (v, weight_of traits v) ∷ []) (s + weight_of traits v)
          (omega arith)
      ∙ ground (arith, append_assoc items ((v, weight_of traits v) ∷ []) (weighed vs))

  next_item-share :
      (us ws : List T) (v last : T) (q : ℕ)
      → total us < q
      → q ≤ total us + weight_of traits v
      → total us + weight_of traits v < sign_bit
      → next_item q last (weighed (us ++ v ∷ ws)) ≡ v
  unfolding next_item weighed add64 neg64 gt64
  next_item-share [] ws v last q a b c = ground arith
  next_item-share (u ∷ us) ws v last q a b c = ground (
    arith,
    next_item-share us ws v u (q - weight_of traits u) (omega arith) (omega arith)
        (omega (arith, weight_pos u)),
  )

  next-weighed :
      (d : Draw) (us ws : List T) (v : T) (s : ℕ)
      → 0 < s
      → s < sign_bit
      → total us ≤ d.intn s
      → d.intn s < total us + weight_of traits v
      → total us + weight_of traits v < sign_bit
      → next d (weighed (us ++ v ∷ ws), s) ≡ some v
  unfolding next weighed
  next-weighed d [] ws v s p q a b c = ground (
    arith,
    positive s p q,
    plus_one (d.intn s) (omega arith),
    next_item-share [] ws v v (d.intn s + 1) (omega arith) (omega arith) c,
  )
  next-weighed d (u ∷ us) ws v s p q a b c = ground (
    arith,
    positive s p q,
    plus_one (d.intn s) (omega arith),
    next_item-share (u ∷ us) ws v u (d.intn s + 1) (omega arith) (omega arith) c,
  )

  random_nonempty :
      (d : Draw) (vs : List T)
      → is_empty vs ≡ false
      → apply traits d random vs ≡ (random, next d (add_items traits vs ([], 0)))
  unfolding apply
  random_nonempty d [] e = absurd (ground arith)
  random_nonempty d (v ∷ vs) e = refl

  -- With weights whose sum is below 2 ^ 63, the strategy chooses the node v behind the nodes us exactly
  -- for the random numbers from the sum of the weights of us on, as many as the weight of v.
  pub apply-random :
      (d : Draw) (us ws : List T) (v : T)
      → total (us ++ v ∷ ws) < sign_bit
      → total us ≤ d.intn (total (us ++ v ∷ ws))
      → d.intn (total (us ++ v ∷ ws)) < total us + weight_of traits v
      → apply traits d random (us ++ v ∷ ws) ≡ (random, some v)
  apply-random d us ws v p a b =
      random_nonempty d (us ++ v ∷ ws) (nonempty us)
      ∙ ap (λ x. (random, next d x))
          (add_items-weighed (us ++ v ∷ ws) [] 0 (omega arith)
            ∙ ap (λ n. (weighed (us ++ v ∷ ws), n)) (omega arith))
      ∙ ap (λ o. (random, o))
          (next-weighed d us ws v (total (us ++ v ∷ ws)) (omega (arith, sum, weight_pos v)) p a b
            (omega (arith, sum)))
    where
      sum : total (us ++ v ∷ ws) ≡ total us + (weight_of traits v + total ws)
      sum = total-append us (v ∷ ws)

      nonempty : (us : List T) → is_empty (us ++ v ∷ ws) ≡ false
      nonempty [] = refl
      nonempty (u ∷ us) = refl
