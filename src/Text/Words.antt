-- ===== src/Text/Words.antt =====
-- A line of words comes back as its words.
use mathlib.Core.List.{reverse, reverse-append, reverse-reverse, reverse-cons}
use gost_x.Prelude.{
  ℕ, ◌≡◌, ◌≢◌, refl, sym, ◌∙◌, ap, true, false, not, List, [], ◌∷◌, ◌++◌, map, arith, All,
  append-nil, append_assoc, is_empty, select,
}
use gost_x.Text.{
  Text, is_space, trim_left, trim_space, tabs_to_blanks, split_from, split_blanks, before, fields,
  line_fields,
}
use gost_x.Text.Laws.{Free, index_byte-Free}

abbrev pub Dense : Text → Type 0
Dense s = All (λ c. is_space c ≡ false) s

-- A word: not empty, without white space and '#'.
pub record IsWord (w : Text) : Type 0 where
  pub filled : w ≢ []
  pub dense : Dense w
  pub plain : Free b'#' w

abbrev pub unwords : List Text → Text
unwords [] = []
unwords (w ∷ []) = w
unwords (w ∷ v ∷ ws) = w ++ b' ' ∷ unwords (v ∷ ws)

All-append {ℓ κ} : {A : Type ℓ} (P : A → Type κ) (s t : List A) → All P s → All P t → All P (s ++ t)
All-append P [] t h k = k
All-append P (a ∷ s) t h k = (h.0, All-append P s t h.1 k)

All-reverse {ℓ κ} : {A : Type ℓ} (P : A → Type κ) (s : List A) → All P s → All P (reverse s)
All-reverse P [] h = tt
All-reverse P (a ∷ s) h =
    rw reverse-cons (All-append P (reverse s) (a ∷ []) (All-reverse P s h.1) (h.0, tt))

trim_left_append : (w r : Text) → w ≢ [] → Dense w → trim_left (w ++ r) ≡ w ++ r
unfolding trim_left
trim_left_append [] r ne h = absurd (ne refl)
trim_left_append (a ∷ w) r ne h = rw h.0

reverse-ne : (w : Text) → w ≢ [] → reverse w ≢ []
reverse-ne w ne e = ne (sym (reverse-reverse w) ∙ ap reverse e)

-- A text that begins with a word and ends with one is trimmed already.
trim_space_lem :
    (s w r v q : Text)
    → s ≡ w ++ r
    → s ≡ q ++ v
    → w ≢ []
    → v ≢ []
    → Dense w
    → Dense v
    → trim_space s ≡ s
unfolding trim_space
trim_space_lem s w r v q e f nw nv hw hv =
    ap (λ t. reverse (trim_left (reverse t))) front ∙ ap reverse back ∙ reverse-reverse s
  where
    front : trim_left s ≡ s
    front = rw e (trim_left_append w r nw hw)

    back : trim_left (reverse s) ≡ reverse s
    back =
        rw (f, reverse-append q v)
          (trim_left_append (reverse v) (reverse q) (reverse-ne v nv) (All-reverse _ v hv))

tail_of : List Text → Text
tail_of [] = []
tail_of (v ∷ ws) = b' ' ∷ unwords (v ∷ ws)

unwords-front : (w : Text) (ws : List Text) → unwords (w ∷ ws) ≡ w ++ tail_of ws
unfolding tail_of
unwords-front w [] = sym (append-nil w)
unwords-front w (v ∷ ws) = refl

-- What stands before the last word, and that word.
last_split : Text → List Text → Text × Text
last_split w [] = ([], w)
last_split w (v ∷ ws) = let (q, u) = last_split v ws in (w ++ b' ' ∷ q, u)

unwords-last :
    (w : Text) (ws : List Text) → unwords (w ∷ ws) ≡ (last_split w ws).0 ++ (last_split w ws).1
unfolding last_split
unwords-last w [] = refl
unwords-last w (v ∷ ws) =
    rw (unwords-last v ws) (sym (append_assoc w (b' ' ∷ (last_split v ws).0) (last_split v ws).1))

last_split-IsWord :
    (w : Text) (ws : List Text) → IsWord w → All IsWord ws → IsWord (last_split w ws).1
unfolding last_split
last_split-IsWord w [] h hs = h
last_split-IsWord w (v ∷ ws) h hs = last_split-IsWord v ws hs.0 hs.1

trim_space-unwords :
    (w : Text) (ws : List Text)
    → IsWord w
    → All IsWord ws
    → trim_space (unwords (w ∷ ws)) ≡ unwords (w ∷ ws)
trim_space-unwords w ws h hs =
    let last = last_split-IsWord w ws h hs in
    trim_space_lem (unwords (w ∷ ws)) w (tail_of ws) (last_split w ws).1 (last_split w ws).0
      (unwords-front w ws) (unwords-last w ws) h.filled last.filled h.dense last.dense

pub trim_space-IsWord : (w : Text) → IsWord w → trim_space w ≡ w
trim_space-IsWord w h = trim_space-unwords w [] h tt

-- A property of every word and of the blank is one of the line.
All-unwords : (P : ℕ → Type 0) (ws : List Text) → P b' ' → All (All P) ws → All P (unwords ws)
All-unwords P [] b h = tt
All-unwords P (w ∷ []) b h = h.0
All-unwords P (w ∷ v ∷ ws) b h = All-append P w _ h.0 (b, All-unwords P (v ∷ ws) b h.1)

words-All :
    (P : ℕ → Type 0) (ws : List Text)
    → ((w : Text) → IsWord w → All P w)
    → All IsWord ws
    → All (All P) ws
words-All P [] f h = tt
words-All P (w ∷ ws) f h = (f w h.0, words-All P ws f h.1)

pub Dense-Free : (c : ℕ) (w : Text) → is_space c ≡ true → Dense w → Free c w
Dense-Free c [] e h = tt
Dense-Free c (a ∷ w) e h = (λ q. cc (ap is_space q), Dense-Free c w e h.1)

tabs_to_blanks-Free : (s : Text) → Free 9 s → tabs_to_blanks s ≡ s
unfolding tabs_to_blanks
tabs_to_blanks-Free [] h = refl
tabs_to_blanks-Free (a ∷ s) h = ground (arith, tabs_to_blanks-Free s h.1)

split_from-last : (cur w : Text) → Free b' ' w → split_from cur w ≡ (cur ++ w) ∷ []
unfolding split_from
split_from-last cur [] h = rw (append-nil cur)
split_from-last cur (a ∷ w) h =
    ground (arith, split_from-last (cur ++ a ∷ []) w h.1, append_assoc cur (a ∷ []) w)

split_from-word :
    (cur w r : Text) → Free b' ' w → split_from cur (w ++ b' ' ∷ r) ≡ (cur ++ w) ∷ split_from [] r
unfolding split_from
split_from-word cur [] r h = rw (append-nil cur)
split_from-word cur (a ∷ w) r h =
    ground (arith, split_from-word (cur ++ a ∷ []) w r h.1, append_assoc cur (a ∷ []) w)

split_blanks-unwords :
    (w : Text) (ws : List Text)
    → IsWord w
    → All IsWord ws
    → split_blanks (unwords (w ∷ ws)) ≡ w ∷ ws
unfolding split_blanks
split_blanks-unwords w [] h hs =
    split_from-last [] w (Dense-Free b' ' w (unfold is_space in refl) h.dense)
split_blanks-unwords w (v ∷ ws) h hs =
    split_from-word [] w (unwords (v ∷ ws)) (Dense-Free b' ' w (unfold is_space in refl) h.dense)
    ∙ ap (λ r. w ∷ r) (split_blanks-unwords v ws hs.0 hs.1)

trim_words :
    (ws : List Text) → All IsWord ws → select (λ w. not (is_empty w)) (map trim_space ws) ≡ ws
trim_words [] h = refl
trim_words ([] ∷ ws) h = absurd (h.0.filled refl)
trim_words ((a ∷ w) ∷ ws) h =
    rw (trim_space-IsWord (a ∷ w) h.0) (ap (λ r. (a ∷ w) ∷ r) (trim_words ws h.1))

pub plain_unwords :
    (w : Text) (ws : List Text) → IsWord w → All IsWord ws → Free b'#' (unwords (w ∷ ws))
plain_unwords w ws h hs =
    All-unwords (λ a. a ≢ b'#') (w ∷ ws) (omega arith)
      (words-All _ (w ∷ ws) (λ v k. k.plain) (h, hs))

-- A line of words has no tab and is trimmed.
pub trim_line :
    (w : Text) (ws : List Text)
    → IsWord w
    → All IsWord ws
    → trim_space (tabs_to_blanks (unwords (w ∷ ws))) ≡ unwords (w ∷ ws)
trim_line w ws h hs =
    ap trim_space (tabs_to_blanks-Free (unwords (w ∷ ws)) no_tab) ∙ trim_space-unwords w ws h hs
  where
    no_tab : Free 9 (unwords (w ∷ ws))
    no_tab =
        All-unwords (λ a. a ≢ 9) (w ∷ ws) (omega arith)
          (words-All _ (w ∷ ws) (λ v k. Dense-Free 9 v (unfold is_space in refl) k.dense) (h, hs))

-- The line parsers get back the words that a line was made of.
pub line_fields-unwords :
    (w : Text) (ws : List Text) → IsWord w → All IsWord ws → line_fields (unwords (w ∷ ws)) ≡ w ∷ ws
unfolding line_fields fields before
line_fields-unwords w ws h hs =
    ap (λ s. select (λ w. not (is_empty w)) (map trim_space (split_blanks (before b'#' s))))
      (trim_line w ws h hs)
    ∙ ap (λ s. select (λ w. not (is_empty w)) (map trim_space (split_blanks s))) uncut
    ∙ ap (λ s. select (λ w. not (is_empty w)) (map trim_space s)) (split_blanks-unwords w ws h hs)
    ∙ trim_words (w ∷ ws) (h, hs)
  where
    uncut : before b'#' (unwords (w ∷ ws)) ≡ unwords (w ∷ ws)
    uncut = ground (arith, index_byte-Free b'#' (unwords (w ∷ ws)) (plain_unwords w ws h hs))

pub blank-Free : (w : Text) → IsWord w → Free b' ' w
blank-Free w h = Dense-Free b' ' w (unfold is_space in refl) h.dense
