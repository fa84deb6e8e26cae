-- ===== src/Limiter/Traffic/Sides.antt =====
-- What the loop of a reload over the values does to the limiters of one host.
use gost_x.Prelude.{ℕ, ◌≡◌, refl, ◌∙◌, ap, ◌&&◌, none, some, [], ◌∷◌, is_some, arith, if◌then◌else◌}
use gost_x.Text.{Text, eq_text}
use gost_x.Text.Laws.{eq_text_iff}
use gost_x.Assoc.{Assoc, lookup, has_key, IsMap, lookup-insert, lookup-delete}
use gost_x.Net.{parse_cidr}
use gost_x.Limiter.Traffic.{Rates, made}
use gost_x.Limiter.Traffic.Table.{Side, Levels, set_level, put_side, put_value, put_values}

pub lookup-set_level :
    (key h : Text) (n : ℕ) (m : Assoc ℕ)
    → lookup h (set_level key n m) ≡ (if eq_text key h then made n else lookup h m)
unfolding set_level made
lookup-set_level key h n m =
    ground (arith, lookup-insert key h n m, lookup-delete key h m, eq_text_iff key h)

-- The values for one direction, one after the other.
unfoldable pub put_rates : (Rates → ℕ) → Assoc Rates → Side → Side
put_rates rate [] s = s
put_rates rate ((k, v) ∷ values) s =
    put_rates rate values (if is_some (parse_cidr k) then s else put_side k (rate v) s)

put_value-ins :
    (k : Text) (v : Rates) (w : Levels)
    → (put_value k v w).ins ≡ (if is_some (parse_cidr k) then w.ins else put_side k v.inward w.ins)
unfolding put_value
put_value-ins k v w = ground arith

put_value-outs :
    (k : Text) (v : Rates) (w : Levels)
    → (put_value k v w).outs
      ≡ (if is_some (parse_cidr k) then w.outs else put_side k v.outward w.outs)
unfolding put_value
put_value-outs k v w = ground arith

pub put_values-ins :
    (values : Assoc Rates) (w : Levels)
    → (put_values values w).ins ≡ put_rates (λ g. g.inward) values w.ins
unfolding put_values put_rates
put_values-ins [] w = refl
put_values-ins ((k, v) ∷ values) w =
    put_values-ins values (put_value k v w)
    ∙ ap (put_rates (λ g. g.inward) values) (put_value-ins k v w)

pub put_values-outs :
    (values : Assoc Rates) (w : Levels)
    → (put_values values w).outs ≡ put_rates (λ g. g.outward) values w.outs
unfolding put_values put_rates
put_values-outs [] w = refl
put_values-outs ((k, v) ∷ values) w =
    put_values-outs values (put_value k v w)
    ∙ ap (put_rates (λ g. g.outward) values) (put_value-outs k v w)

-- The value for a host decides; a key that is a network leaves the host alone.
lookup-put_side :
    (k h : Text) (n : ℕ) (s : Side)
    → (lookup h (put_side k n s).limits ≡ (if eq_text k h then made n else lookup h s.limits))
      × (lookup h (put_side k n s).left
          ≡ (if eq_text k h && has_key h s.limits then none else lookup h s.left))
unfolding put_side
lookup-put_side k h n s =
    (lookup-set_level k h n s.limits, ground (arith, lookup-delete k h s.left, eq_text_iff k h))

module _ (h : Text) (e : parse_cidr h ≡ none) (rate : Rates → ℕ) where
  pub limits-put_rates :
      (values : Assoc Rates) (s : Side)
      → IsMap values
      → lookup h (put_rates rate values s).limits
        ≡ elim (lookup h values) [ none ↦ lookup h s.limits | some v ↦ made (rate v) ]
  unfolding put_rates lookup
  limits-put_rates [] s d = refl
  limits-put_rates ((k, v) ∷ values) s d = ground (
    arith,
    limits-put_rates values s d.1,
    limits-put_rates values (put_side k (rate v) s) d.1,
    (lookup-put_side k h (rate v) s).0,
    eq_text_iff k h,
    d.0,
    e,
  )

  pub left-put_rates :
      (values : Assoc Rates) (s : Side)
      → IsMap values
      → lookup h (put_rates rate values s).left ≡ elim (lookup h values) [
        | none ↦ lookup h s.left
        | some v ↦ if has_key h s.limits then none else lookup h s.left
      ]
  unfolding put_rates lookup
  left-put_rates [] s d = refl
  left-put_rates ((k, v) ∷ values) s d = ground (
    arith,
    left-put_rates values s d.1,
    left-put_rates values (put_side k (rate v) s) d.1,
    (lookup-put_side k h (rate v) s).0,
    (lookup-put_side k h (rate v) s).1,
    eq_text_iff k h,
    d.0,
    e,
  )
