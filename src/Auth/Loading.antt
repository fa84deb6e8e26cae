-- ===== src/Auth/Loading.antt =====
-- What is loaded, and from where.
use gost_x.Prelude.{
  ℕ, ◌+◌, ◌≡◌, refl, false, Option, some, [], ◌∷◌, ◌++◌, is_empty, length, drop, take-append, arith,
}
use gost_x.Text.{Text}
use gost_x.Text.Laws.{index_byte-Free, index_byte-append}
use gost_x.Text.Words.{IsWord, unwords, trim_line, plain_unwords, blank-Free, trim_space-IsWord}
use gost_x.Assoc.{Assoc, insert}
use gost_x.Loader.{Loader}
use gost_x.Auth.{GoMap, load_redis, load, add_line}

-- Once the loader of files is a mapper, nothing that the loader of redis holds is read: any two of
-- them load the same.
pub load_redis_unread :
    (file redis redis' : Loader) (http : Option Loader) (t : ℕ) (auths : ℕ → GoMap)
    → file.maps ≡ some auths
    → load (record { file = some file; redis = some redis; http = http }) t
      ≡ load (record { file = some file; redis = some redis'; http = http }) t
unfolding load load_redis
load_redis_unread file redis redis' http t auths e = ground arith

is_empty-IsWord : (w : Text) → IsWord w → is_empty w ≡ false
is_empty-IsWord [] h = absurd (h.filled refl)
is_empty-IsWord (a ∷ w) h = refl

drop-word : (u w : Text) → drop (length u + 1) (u ++ b' ' ∷ w) ≡ w
drop-word [] w = refl
drop-word (a ∷ u) w = ground (arith, drop-word u w)

-- A line of a name and a password, both words without blank and "#", enters that password for the
-- name, and a line of one such word enters the empty password.
add_line-unwords :
    (u w : Text) (m : Assoc Text)
    → IsWord u
    → IsWord w
    → (add_line (unwords (u ∷ w ∷ [])) m ≡ insert u w m) × (add_line u m ≡ insert u [] m)
unfolding add_line
add_line-unwords u w m hu hw = (
  ground (
    arith,
    trim_line u (w ∷ []) hu (hw, tt),
    index_byte-Free b'#' (unwords (u ∷ w ∷ [])) (plain_unwords u (w ∷ []) hu (hw, tt)),
    index_byte-append b' ' u w (blank-Free u hu),
    take-append u (b' ' ∷ w),
    drop-word u w,
    trim_space-IsWord u hu,
    trim_space-IsWord w hw,
    is_empty-IsWord u hu,
  ),
  ground (
    arith,
    trim_line u [] hu tt,
    index_byte-Free b'#' u hu.plain,
    index_byte-Free b' ' u (blank-Free u hu),
    trim_space-IsWord u hu,
    is_empty-IsWord u hu,
  ),
)
