-- ===== src/Chain/Hosted.antt =====
-- The hosts that a node of a hop serves.
use gost_x.Prelude.{
  ◌≡◌, refl, sym, ◌∙◌, ap, true, Bool-cases, ◌⊎◌, inl, inr, [], ◌∷◌, ◌++◌, ==_refl, ==_iff, arith,
}
use mathlib.Core.List.{reverse, reverse-append, reverse-reverse}
use gost_x.Text.{Text, eq_text, has_prefix, has_suffix}
use gost_x.Text.Laws.{eq_text_iff}
use gost_x.Chain.{serves}

has_prefix-append : (p s : Text) → has_prefix (p ++ s) p ≡ true
unfolding has_prefix
has_prefix-append [] s = refl
has_prefix-append (c ∷ p) s = ground (arith, ==_refl c, has_prefix-append p s)

has_suffix-append : (s p : Text) → has_suffix (s ++ p) p ≡ true
unfolding has_suffix
has_suffix-append s p =
    ap (λ t. has_prefix t (reverse p)) (reverse-append s p)
    ∙ has_prefix-append (reverse p) (reverse s)

-- A node of the host ".domain" serves every host that ends in "domain", also without a dot in between.
serves-append : (domain s : Text) → serves (b'.' ∷ domain) (s ++ domain) ≡ true
unfolding serves has_prefix
serves-append domain s = ground (arith, has_suffix-append s domain)

has_prefix-split : (s p : Text) → has_prefix s p ≡ true → (t : Text) × (s ≡ p ++ t)
unfolding has_prefix
has_prefix-split s [] e = (s, refl)
has_prefix-split [] (b ∷ p) e = absurd cc
has_prefix-split (a ∷ s) (b ∷ p) e =
    let (t, q) = has_prefix-split s p (ground (arith, e)) in
    (t, cc ((==_iff a b).0 (ground (arith, e)), q))

has_suffix-split : (s p : Text) → has_suffix s p ≡ true → (t : Text) × (s ≡ t ++ p)
unfolding has_suffix
has_suffix-split s p e =
    let (t, q) = has_prefix-split (reverse s) (reverse p) e in
    (
      reverse t,
      sym (reverse-reverse s)
          ∙ ap reverse q
          ∙ reverse-append (reverse p) t
          ∙ ap (λ z. reverse t ++ z) (reverse-reverse p),
    )

-- A node of the host `vhost` is for a host: the same one, or, for a `vhost` with a dot in front, one that
-- ends in what is behind the dot.
abbrev pub IsFor : Text → Text → Type 0
IsFor vhost host =
    (vhost ≡ host) ⊎ ((domain s : Text) × (vhost ≡ b'.' ∷ domain) × (host ≡ s ++ domain))

pub serves-IsFor : (vhost host : Text) → serves vhost host ≡ true → IsFor vhost host
unfolding serves has_prefix
serves-IsFor [] host e = inl ((eq_text_iff [] host).0 (ground (arith, e)))
serves-IsFor (c ∷ domain) host e = elim (Bool-cases (eq_text (c ∷ domain) host)) [
  | inl f ↦ inl ((eq_text_iff (c ∷ domain) host).0 f)
  | inr f ↦
      let (s, q) = has_suffix-split host domain (ground (arith, e, f)) in
      inr (domain, s, ap (λ x. x ∷ domain) ((==_iff c b'.').0 (ground (arith, e, f))), q)
]
