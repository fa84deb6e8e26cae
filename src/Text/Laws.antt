-- ===== src/Text/Laws.antt =====
-- Equality of texts, and where a byte stands.
use gost_x.Prelude.{
  ℕ, zero, suc, ◌<◌, ◌≡◌, ◌≢◌, ◌↔◌, refl, true, false, none, some, [], ◌∷◌, ◌++◌, arith, length,
  All,
}
use gost_x.Text.{Text, eq_text, index_byte, last_index_byte}

pub eq_text_refl : (s : Text) → eq_text s s ≡ true
unfolding eq_text
eq_text_refl [] = refl
eq_text_refl (a ∷ s) = ground (arith, eq_text_refl s)

pub eq_text_iff : (s t : Text) → (eq_text s t ≡ true) ↔ (s ≡ t)
unfolding eq_text
eq_text_iff [] [] = ground arith
eq_text_iff [] (b ∷ t) = ground arith
eq_text_iff (a ∷ s) [] = ground arith
eq_text_iff (a ∷ s) (b ∷ t) = ground (arith, eq_text_iff s t)

pub eq_text_ne : (s t : Text) → s ≢ t → eq_text s t ≡ false
eq_text_ne s t h = ground (arith, eq_text_iff s t)

-- A text without the byte `c`.
abbrev pub Free : ℕ → Text → Type 0
Free c s = All (λ a. a ≢ c) s

pub index_byte-Free : (c : ℕ) (s : Text) → Free c s → index_byte c s ≡ none
unfolding index_byte
index_byte-Free c [] h = refl
index_byte-Free c (a ∷ s) h = ground (arith, index_byte-Free c s h.1)

pub index_byte-append :
    (c : ℕ) (s t : Text) → Free c s → index_byte c (s ++ c ∷ t) ≡ some (length s)
unfolding index_byte
index_byte-append c [] t h = ground arith
index_byte-append c (a ∷ s) t h = ground (arith, index_byte-append c s t h.1)

pub index_byte-lt : (c : ℕ) (s : Text) (i : ℕ) → index_byte c s ≡ some i → i < length s
unfolding index_byte
index_byte-lt c [] i h = cc
index_byte-lt c (a ∷ s) zero h = omega arith
index_byte-lt c (a ∷ s) (suc i) h = ground (arith, index_byte-lt c s i)

pub last_index_byte-Free : (c : ℕ) (s : Text) → Free c s → last_index_byte c s ≡ none
unfolding last_index_byte
last_index_byte-Free c [] h = refl
last_index_byte-Free c (a ∷ s) h = ground (arith, last_index_byte-Free c s h.1)

pub last_index_byte-append :
    (c : ℕ) (s t : Text) → Free c t → last_index_byte c (s ++ c ∷ t) ≡ some (length s)
unfolding last_index_byte
last_index_byte-append c [] t h = ground (arith, last_index_byte-Free c t h)
last_index_byte-append c (a ∷ s) t h = ground (arith, last_index_byte-append c s t h)
