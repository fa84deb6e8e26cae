-- ===== src/Text/Labels.antt =====
-- The loop that walks a host name to its parent domains, which the matchers, the host table and the
-- ingress share, against the list of the name's labels.
use gost_x.Prelude.{
  ℕ, zero, suc, ◌<◌, ◌≤◌, length-append, ◌≡◌, ◌≢◌, refl, ap, Option, none, some, List, [], ◌∷◌,
  ◌++◌, arith, length, drop, All, append-nil, drop-append, or_else, Option-cases, inl, inr,
  length-drop,
}
use gost_x.Text.{Text, index_byte}
use gost_x.Text.Laws.{Free, index_byte-Free, index_byte-append, index_byte-lt}

-- if index := IndexByte(s, '.'); index > 0: s[index:] and s[index+1:].
unfoldable pub cut_label : Text → Option (Text × Text)
cut_label s = elim (index_byte b'.' s) [
  | none ↦ none
  | some zero ↦ none
  | some (suc i) ↦ some (drop (suc i) s, drop (suc (suc i)) s)
]

-- for { if index > 0 { look s[index:] up; s = s[index+1:] } else break }
-- A round that goes on shortens the text, so its length is enough fuel.
unfoldable pub find_suffix {ℓ} : {A : Type ℓ} → ℕ → (Text → Option A) → Text → Option A
find_suffix zero f s = none
find_suffix (suc n) f s = elim (cut_label s) [
  | none ↦ none
  | some (up, rest) ↦ elim (f up) [ some a ↦ some a | none ↦ find_suffix n f rest ]
]

abbrev pub parent {ℓ} : {A : Type ℓ} → (Text → Option A) → Text → Option A
parent f s = find_suffix (suc (length s)) f s

-- A label is not empty and has no dot.
abbrev pub IsLabel : Text → Type 0
IsLabel l = (l ≢ []) × Free b'.' l

-- ".b.c" for the labels b, c.
abbrev pub dotted : List Text → Text
dotted [] = []
dotted (l ∷ ls) = b'.' ∷ (l ++ dotted ls)

-- The number of labels is at most the length of the name.
pub length-dotted : (ls : List Text) → length ls ≤ length (dotted ls)
length-dotted [] = omega arith
length-dotted (l ∷ ls) = omega (arith, length-dotted ls, length-append l (dotted ls))

-- The first answer for the proper parent domains, the longest first.
abbrev pub first_dotted {ℓ} : {A : Type ℓ} → (Text → Option A) → List Text → Option A
first_dotted f [] = none
first_dotted f (l ∷ ls) = or_else (f (dotted (l ∷ ls))) (first_dotted f ls)

drop-append_suc : (s t : Text) (c : ℕ) → drop (suc (length s)) (s ++ c ∷ t) ≡ t
drop-append_suc [] t c = refl
drop-append_suc (a ∷ s) t c = drop-append_suc s t c

cut_label-Free : (l : Text) → Free b'.' l → cut_label l ≡ none
unfolding cut_label
cut_label-Free l h = ground (arith, index_byte-Free b'.' l h)

cut_label-append : (l r : Text) → IsLabel l → cut_label (l ++ b'.' ∷ r) ≡ some (b'.' ∷ r, r)
unfolding cut_label
cut_label-append [] r h = absurd (h.0 refl)
cut_label-append (c ∷ l) r h = ground (
  arith,
  index_byte-append b'.' (c ∷ l) r h.1,
  drop-append (c ∷ l) (b'.' ∷ r),
  drop-append_suc (c ∷ l) r b'.',
)

length-cut_label : (s up rest : Text) → cut_label s ≡ some (up, rest) → length rest < length s
unfolding cut_label
length-cut_label s up rest e = elim (Option-cases (index_byte b'.' s)) [
  | inl q ↦ ground arith
  | inr (i, q) ↦ ground (arith, index_byte-lt b'.' s i, length-drop (suc i) s)
]

module _ {ℓ} {A : Type ℓ} (f : Text → Option A) where
  find_suffix_step :
      (n : ℕ) (l r : Text)
      → IsLabel l
      → find_suffix (suc n) f (l ++ b'.' ∷ r) ≡ or_else (f (b'.' ∷ r)) (find_suffix n f r)
  unfolding find_suffix
  find_suffix_step n l r h = ground (arith, cut_label-append l r h)

  -- The walk over a name made of labels asks for its parent domains, the longest first.
  pub find_suffix-first_dotted :
      (n : ℕ) (l : Text) (ls : List Text)
      → IsLabel l
      → All IsLabel ls
      → length ls < n
      → find_suffix n f (l ++ dotted ls) ≡ first_dotted f ls
  find_suffix-first_dotted zero l ls h hs lt = absurd (omega arith)
  find_suffix-first_dotted (suc n) l [] h hs lt =
      unfold find_suffix in rw (append-nil l) (ground (arith, cut_label-Free l h.1))
  find_suffix-first_dotted (suc n) l (m ∷ ms) h hs lt =
      rw (find_suffix_step n l (m ++ dotted ms) h) (
        ap (or_else (f (dotted (m ∷ ms))))
          (find_suffix-first_dotted n m ms hs.0 hs.1 (omega arith)))

  -- More fuel than the text is long changes nothing.
  pub find_suffix_enough :
      (n k : ℕ) (s : Text) → length s < n → length s < k → find_suffix n f s ≡ find_suffix k f s
  unfolding find_suffix
  find_suffix_enough zero k s h g = absurd (omega arith)
  find_suffix_enough (suc n) zero s h g = absurd (omega arith)
  find_suffix_enough (suc n) (suc k) s h g = elim (Option-cases (cut_label s)) [
    | inl e ↦ ground arith
    | inr ((up, rest), e) ↦
        ground (arith, length-cut_label s up rest e, find_suffix_enough n k rest)
  ]

-- The walk that asks in vain.
pub find_suffix_never {ℓ} :
    {A : Type ℓ} (n : ℕ) (s : Text) → find_suffix {A = A} n (λ k. none) s ≡ none
unfolding find_suffix
find_suffix_never zero s = refl
find_suffix_never {A} (suc n) s = elim (Option-cases (cut_label s)) [
  | inl q ↦ ground arith
  | inr ((up, rest), q) ↦ ground (arith, find_suffix_never {A = A} n rest)
]
