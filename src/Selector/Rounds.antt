-- ===== src/Selector/Rounds.antt =====
-- Round robin: one round of calls goes through all nodes.
use gost_x.Prelude.{
  ℕ, zero, suc, ◌+◌, ◌%◌, ◌<◌, ◌≤◌, ◌≡◌, refl, sym, ◌∙◌, ap, subst, ◌==◌, ==_iff, Bool-cases, inl,
  inr, Option, some, List, [], ◌∷◌, ◌++◌, map, append_assoc, if◌then◌else◌, length, length-append,
  get_elem?, take, drop, drop-append, take-append, is_empty, arith,
}
use gost_x.Int64.{add64, neg64, modulus}
use gost_x.Selector.{Traits, Draw, Strategy, round_robin, apply}
use native.Mathlib.Nat

next-mod : (c n : ℕ) → 0 < n → suc c % n ≡ (if suc (c % n) == n then 0 else suc (c % n))
next-mod c n p = elim (Bool-cases (suc (c % n) == n)) [
  | inl e ↦
      Nat.suc-mod c n
      ∙ ap (λ i. i % n) ((==_iff (suc (c % n)) n).0 e)
      ∙ Nat.mod_self n
      ∙ ground arith
  | inr e ↦
      Nat.suc-mod c n
      ∙ Nat.mod-eq_of_lt (ground (arith, Nat.mod-lt c p, ==_iff (suc (c % n)) n))
      ∙ ground arith
]

back : (c : ℕ) → c < modulus → add64 (add64 c 1) (neg64 1) ≡ c
unfolding add64 neg64
back c p = omega arith

up : (c : ℕ) → c + 1 < modulus → add64 c 1 ≡ suc c
unfolding add64
up c p = omega arith

module _ {ℓ} {T : Type ℓ} where
  -- The nodes of k calls in a row.
  unfoldable pub picks : Traits T → Draw → ℕ → Strategy → List T → List (Option T)
  picks traits d zero s vs = []
  picks traits d (suc k) s vs = let (s', o) = apply traits d s vs in o ∷ picks traits d k s' vs

  -- The nodes at k places in a row, from place j on and then from the start again.
  cycle : List T → ℕ → ℕ → List (Option T)
  cycle vs j zero = []
  cycle vs j (suc k) = get_elem? vs j ∷ cycle vs (if suc j == length vs then 0 else suc j) k

  apply-round_robin :
      (traits : Traits T) (d : Draw) (c : ℕ) (v : T) (vs : List T)
      → c < modulus
      → apply traits d (round_robin c) (v ∷ vs)
        ≡ (round_robin (add64 c 1), get_elem? (v ∷ vs) (c % length (v ∷ vs)))
  unfolding apply
  apply-round_robin traits d c v vs p =
      ap (λ n. (round_robin (add64 c 1), get_elem? (v ∷ vs) (n % length (v ∷ vs)))) (back c p)

  picks-cycle :
      (traits : Traits T) (d : Draw) (k c : ℕ) (v : T) (vs : List T)
      → c + k ≤ modulus
      → picks traits d k (round_robin c) (v ∷ vs) ≡ cycle (v ∷ vs) (c % length (v ∷ vs)) k
  unfolding picks cycle
  picks-cycle traits d zero c v vs p = refl
  picks-cycle traits d (suc zero) c v vs p =
      ap (λ x. x.1 ∷ []) (apply-round_robin traits d c v vs (omega arith))
  picks-cycle traits d (suc (suc k)) c v vs p =
      ap (λ x. x.1 ∷ picks traits d (suc k) x.0 (v ∷ vs))
        (apply-round_robin traits d c v vs (omega arith))
      ∙ ap
          (λ i.
            get_elem? (v ∷ vs) (c % length (v ∷ vs))
            ∷ picks traits d (suc k) (round_robin i) (v ∷ vs))
          (up c (omega arith))
      ∙ ap (λ l. get_elem? (v ∷ vs) (c % length (v ∷ vs)) ∷ l)
          (picks-cycle traits d (suc k) (suc c) v vs (omega arith)
            ∙ ap (λ i. cycle (v ∷ vs) i (suc k)) (next-mod c (length (v ∷ vs)) (omega arith)))

  get_elem?-append : (us ws : List T) (w : T) → get_elem? (us ++ w ∷ ws) (length us) ≡ some w
  get_elem?-append [] ws w = refl
  get_elem?-append (u ∷ us) ws w = get_elem?-append us ws w

  length-snoc : (us : List T) (w : T) → length (us ++ w ∷ []) ≡ suc (length us)
  length-snoc us w = length-append us (w ∷ []) ∙ omega arith

  cycle_none : (vs : List T) (j : ℕ) → cycle vs j 0 ≡ []
  unfolding cycle
  cycle_none vs j = refl

  at_end : (us ws : List T) (w : T) → (suc (length us) == length (us ++ w ∷ ws)) ≡ is_empty ws
  at_end us [] w = ground (arith, length-append us (w ∷ []))
  at_end us (x ∷ ws) w = ground (arith, length-append us (w ∷ (x ∷ ws)))

  cycle_step :
      (us ws : List T) (w : T) (k : ℕ)
      → cycle (us ++ w ∷ ws) (length us) (suc k)
        ≡ some w ∷ cycle (us ++ w ∷ ws) (if is_empty ws then 0 else suc (length us)) k
  unfolding cycle
  cycle_step us ws w k =
      ap
        (λ o.
          o
          ∷ cycle (us ++ w ∷ ws)
              (if suc (length us) == length (us ++ w ∷ ws) then 0 else suc (length us)) k)
        (get_elem?-append us ws w)
      ∙ ap (λ b. some w ∷ cycle (us ++ w ∷ ws) (if b then 0 else suc (length us)) k)
          (at_end us ws w)

  moved :
      (us ws : List T) (w : T) (k : ℕ)
      → cycle (us ++ w ∷ ws) (suc (length us)) k
        ≡ cycle ((us ++ w ∷ []) ++ ws) (length (us ++ w ∷ [])) k
  moved us ws w k =
      ap (λ i. cycle (us ++ w ∷ ws) i k) (sym (length-snoc us w))
      ∙ ap (λ l. cycle l (length (us ++ w ∷ [])) k) (sym (append_assoc us (w ∷ []) ws))

  -- From the middle of a list, without and with the way back to its start.
  cycle-take :
      (us ws : List T) (k : ℕ)
      → k ≤ length ws
      → cycle (us ++ ws) (length us) k ≡ map some (take k ws)
  cycle-take us ws zero p = cycle_none (us ++ ws) (length us)
  cycle-take us [] (suc k) p = absurd (omega arith)
  cycle-take us (w ∷ []) (suc zero) p =
      cycle_step us [] w 0 ∙ ap (λ l. some w ∷ l) (cycle_none (us ++ w ∷ []) 0)
  cycle-take us (w ∷ []) (suc (suc k)) p = absurd (omega arith)
  cycle-take us (w ∷ (x ∷ ws)) (suc k) p =
      cycle_step us (x ∷ ws) w k
      ∙ ap (λ l. some w ∷ l)
          (moved us (x ∷ ws) w k ∙ cycle-take (us ++ w ∷ []) (x ∷ ws) k (omega arith))

  cycle-wraps :
      (us ws : List T) (w : T) (m : ℕ)
      → cycle (us ++ w ∷ ws) (length us) (suc (length ws + m))
        ≡ map some (w ∷ ws) ++ cycle (us ++ w ∷ ws) 0 m
  cycle-wraps us [] w m =
      cycle_step us [] w (0 + m) ∙ ap (λ n. some w ∷ cycle (us ++ w ∷ []) 0 n) (omega arith)
  cycle-wraps us (x ∷ ws) w m =
      cycle_step us (x ∷ ws) w (suc (length ws) + m)
      ∙ ap (λ l. some w ∷ l)
          (ap (cycle (us ++ w ∷ (x ∷ ws)) (suc (length us))) (omega arith)
            ∙ moved us (x ∷ ws) w (suc (length ws + m))
            ∙ cycle-wraps (us ++ w ∷ []) ws x m
            ∙ ap (λ l. map some (x ∷ ws) ++ cycle l 0 m) (append_assoc us (w ∷ []) (x ∷ ws)))

  -- One round over a list that is cut at the place where it begins.
  cycle-round :
      (us ws : List T) (w : T)
      → cycle (us ++ w ∷ ws) (length us) (length (us ++ w ∷ ws)) ≡ map some (w ∷ ws) ++ map some us
  cycle-round us ws w =
      ap (cycle (us ++ w ∷ ws) (length us)) (length-append us (w ∷ ws) ∙ omega arith)
      ∙ cycle-wraps us ws w (length us)
      ∙ ap (λ l. map some (w ∷ ws) ++ l)
          (cycle-take [] (us ++ w ∷ ws) (length us) (omega (arith, length-append us (w ∷ ws)))
            ∙ ap (map some) (take-append us (w ∷ ws)))

  cut :
      (vs : List T) (j : ℕ)
      → j < length vs
      → (us : List T) × (w : T) × (ws : List T) × (us ++ w ∷ ws ≡ vs) × (length us ≡ j)
  cut [] j p = absurd (omega arith)
  cut (v ∷ vs) zero p = ([], v, vs, refl, refl)
  cut (v ∷ vs) (suc j) p =
      let (us, w, ws, e, q) = cut vs j (omega arith) in (v ∷ us, w, ws, ap (λ l. v ∷ l) e, ap suc q)

  -- As many calls in a row as there are nodes, from a counter c on that does not wrap around meanwhile,
  -- choose every node once, in the order of the list, from place c % n on and then from its start.
  pub picks-round_robin :
      (traits : Traits T) (d : Draw) (c : ℕ) (v : T) (vs : List T)
      → c + length (v ∷ vs) ≤ modulus
      → picks traits d (length (v ∷ vs)) (round_robin c) (v ∷ vs)
        ≡ map some (drop (c % length (v ∷ vs)) (v ∷ vs))
          ++ map some (take (c % length (v ∷ vs)) (v ∷ vs))
  picks-round_robin traits d c v vs p =
      picks-cycle traits d (length (v ∷ vs)) c v vs p
      ∙ whole (v ∷ vs) (c % length (v ∷ vs)) (Nat.mod-lt c (omega arith))
    where
      pieces :
          (us ws : List T) (w : T)
          → cycle (us ++ w ∷ ws) (length us) (length (us ++ w ∷ ws))
            ≡ map some (drop (length us) (us ++ w ∷ ws))
              ++ map some (take (length us) (us ++ w ∷ ws))
      pieces us ws w =
          cycle-round us ws w
          ∙ ap (λ l. map some l ++ map some us) (sym (drop-append us (w ∷ ws)))
          ∙ ap (λ l. map some (drop (length us) (us ++ w ∷ ws)) ++ map some l)
              (sym (take-append us (w ∷ ws)))

      whole :
          (l : List T) (j : ℕ)
          → j < length l
          → cycle l j (length l) ≡ map some (drop j l) ++ map some (take j l)
      whole l j q =
          let (us, w, ws, e, i) = cut l j q in
          subst (λ l. cycle l j (length l) ≡ map some (drop j l) ++ map some (take j l)) e
            (subst
              (λ j.
                cycle (us ++ w ∷ ws) j (length (us ++ w ∷ ws))
                ≡ map some (drop j (us ++ w ∷ ws)) ++ map some (take j (us ++ w ∷ ws)))
              i (pieces us ws w))
