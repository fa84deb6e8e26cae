-- ===== src/Selector/Filters.antt =====
-- The filters of failed nodes and of backups, together with a strategy.
use gost_x.Prelude.{
  ℕ, ◌≤◌, ◌≡◌, refl, sym, ◌∙◌, ap, Bool, not, ◌&&◌, Bool-cases, inl, inr, Option, none, some, List,
  [], ◌∷◌, leb, if◌then◌else◌, is_empty, length, select, or_else, arith,
}
use gost_x.Selector.{
  Traits, FailFilter, Draw, fifo, fail_filter, backup_filter, is_alive, is_backup, apply,
  apply_filters, select_one,
}

module _ {ℓ} {T : Type ℓ} where
  -- The first element that passes a test.
  abbrev pub first_of : (T → Bool) → List T → Option T
  first_of p [] = none
  first_of p (v ∷ vs) = if p v then some v else first_of p vs

  head_of : List T → Option T
  head_of [] = none
  head_of (v ∷ vs) = some v

  head-select : (p : T → Bool) (vs : List T) → head_of (select p vs) ≡ first_of p vs
  unfolding head_of
  head-select p [] = refl
  head-select p (v ∷ vs) = ground (arith, head-select p vs)

  select-select :
      (p q : T → Bool) (vs : List T) → select q (select p vs) ≡ select (λ v. p v && q v) vs
  select-select p q [] = refl
  select-select p q (v ∷ vs) = ground (arith, select-select p q vs)

  -- The backups of a list, or the list without them if that leaves any.
  preferred : (T → Bool) → List T → List T
  preferred b vs = let l = select (λ v. not (b v)) vs in if is_empty l then select b vs else l

  -- At most one element stays as it is.
  preferred_one : (b : T → Bool) (vs : List T) → length vs ≤ 1 → preferred b vs ≡ vs
  unfolding preferred
  preferred_one b [] p = refl
  preferred_one b (v ∷ []) p = ground arith
  preferred_one b (v ∷ (w ∷ vs)) p = absurd (omega arith)

  backup_filter-preferred :
      (traits : Traits T) (vs : List T) → backup_filter traits vs ≡ preferred (is_backup traits) vs
  unfolding backup_filter preferred
  backup_filter-preferred traits vs = elim (Bool-cases (leb (length vs) 1)) [
    | inl e ↦ rw e (sym (preferred_one (is_backup traits) vs (ground arith)))
    | inr e ↦ rw e refl
  ]

  head_or : (l m : List T) → head_of (if is_empty l then m else l) ≡ or_else (head_of l) (head_of m)
  unfolding head_of
  head_or [] m = refl
  head_or (v ∷ l) m = refl

  head-preferred :
      (a b : T → Bool) (vs : List T)
      → head_of (preferred b (select a vs))
        ≡ or_else (first_of (λ v. a v && not (b v)) vs) (first_of (λ v. a v && b v) vs)
  unfolding preferred
  head-preferred a b vs =
      head_or (select (λ v. not (b v)) (select a vs)) (select b (select a vs))
      ∙ ap (λ l. or_else (head_of l) (head_of (select b (select a vs))))
          (select-select a (λ v. not (b v)) vs)
      ∙ ap (λ l. or_else (head_of (select (λ v. a v && not (b v)) vs)) (head_of l))
          (select-select a b vs)
      ∙ ap (λ o. or_else o (head_of (select (λ v. a v && b v) vs)))
          (head-select (λ v. a v && not (b v)) vs)
      ∙ ap (λ o. or_else (first_of (λ v. a v && not (b v)) vs) o) (head-select (λ v. a v && b v) vs)

  select_one-fifo :
      (traits : Traits T) (d : Draw) (fs : List (List T → List T)) (vs : List T)
      → select_one traits d fifo fs vs ≡ (fifo, head_of (apply_filters fs vs))
  unfolding select_one apply head_of
  select_one-fifo traits d fs vs = go (apply_filters fs vs)
    where
      go :
          (l : List T)
          → (if is_empty l then (fifo, none) else apply traits d fifo l) ≡ (fifo, head_of l)
      go [] = refl
      go (v ∷ l) = refl

  -- Two nodes or more, with the filters of failed nodes and then of backups: the strategy fifo chooses
  -- the first node that is alive and no backup, else the first that is alive, which is then a backup,
  -- else none.
  pub select_one-first_of :
      (traits : Traits T) (d : Draw) (f : FailFilter) (now : ℕ) (vs : List T)
      → 2 ≤ length vs
      → select_one traits d fifo (fail_filter traits f now ∷ backup_filter traits ∷ []) vs ≡ (
        fifo,
        or_else
            (first_of (λ v. is_alive traits f now v && not (is_backup traits v)) vs)
            (first_of (λ v. is_alive traits f now v && is_backup traits v) vs),
      )
  unfolding apply_filters fail_filter
  select_one-first_of traits d f now vs p =
      select_one-fifo traits d (fail_filter traits f now ∷ backup_filter traits ∷ []) vs
      ∙ ap (λ l. (fifo, head_of (backup_filter traits l))) some_nodes
      ∙ ap (λ l. (fifo, head_of l))
          (backup_filter-preferred traits (select (is_alive traits f now) vs))
      ∙ ap (λ o. (fifo, o)) (head-preferred (is_alive traits f now) (is_backup traits) vs)
    where
      some_nodes : fail_filter traits f now vs ≡ select (is_alive traits f now) vs
      some_nodes = ground arith
