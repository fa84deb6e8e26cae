-- ===== src/Samples.antt =====
-- Concrete third-party libraries for the tests: a set of networks as a list, and globs of * and ?.
use gost_x.Prelude.{
  ℕ, ◌+◌, ◌-◌, ◌%◌, ◌≡◌, refl, Bool, true, false, ◌&&◌, ◌||◌, none, some, List, [], ◌∷◌, any, arith,
  ◌==◌, if◌then◌else◌,
}
use gost_x.Text.{Text}
use gost_x.Net.{Libs, Ip, IpNet, to4}

-- Two lists of bytes agree where the mask has ones.
same_masked : List ℕ → List ℕ → List ℕ → Bool
same_masked [] [] [] = true
same_masked (m ∷ ms) (a ∷ as') (b ∷ bs) =
    (a - a % (256 - m) == b - b % (256 - m)) && same_masked ms as' bs
same_masked _ _ _ = false

unfoldable pub in_network : IpNet → Ip → Bool
unfolding same_masked to4
in_network n ip = elim (to4 ip) [
  | some v4 ↦ same_masked n.mask n.ip v4
  | none ↦ same_masked n.mask n.ip ip
]

positions : ℕ → List IpNet → Ip → List ℕ
positions i [] ip = []
positions i (n ∷ ns) ip =
    let rest = positions (i + 1) ns ip in if in_network n ip then i ∷ rest else rest

glob : Text → Text → Bool
glob [] [] = true
glob [] (a ∷ s) = false
glob (c ∷ p) [] = c == b'*' && glob p []
glob (c ∷ p) (a ∷ s) =
    let star = glob p (a ∷ s) || glob (c ∷ p) s in
    let one = glob p s in if c == b'*' then star else (c == b'?' || c == a) && one

unfoldable pub libs : Libs
unfolding in_network positions glob
libs = record {
  ranger_contains = λ ns ip. any (λ n. in_network n ip) ns;
  containing_networks = λ ns ip. positions 0 ns ip;
  glob_compile = λ p. some (glob p);
}

pub libs-RangerIsUnion :
    (ns : List IpNet) (ip : Ip)
    → libs.ranger_contains ns ip ≡ any (λ n. libs.ranger_contains (n ∷ []) ip) ns
unfolding libs
libs-RangerIsUnion [] ip = refl
libs-RangerIsUnion (n ∷ ns) ip = ground (arith, libs-RangerIsUnion ns ip)
