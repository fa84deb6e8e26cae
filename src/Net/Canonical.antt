-- ===== src/Net/Canonical.antt =====
-- The text of an address has no upper-case letter.
use gost_x.Prelude.{
  ℕ, zero, suc, ◌+◌, ◌-◌, ◌/◌, ◌%◌, ◌≤◌, ◌≡◌, Bool, true, false, ◌&&◌, Option, none, some, inl, inr,
  List, [], ◌∷◌, ◌++◌, arith, length, ltb, ◌==◌, if◌then◌else◌, Bool-cases, not,
}
use gost_x.Text.{Text}
use gost_x.Text.Laws.{Free}
use gost_x.Net.Addr.{Ip, to4}
use gost_x.Net.Format.{
  digit, render, dotted_bytes, hex_string, groups, longest_run, groups_text, address_text,
  ip_string,
}
use gost_x.Net.HostPort.{Free-append}

module _ (c : ℕ) (low : 65 ≤ c) (high : c ≤ 90) where
  digit-ne : (d : ℕ) → digit d ≡ c → ⊥
  digit-ne d h = ground arith

  render-Free : (k base n : ℕ) → Free c (render k base n)
  unfolding render
  render-Free zero base n = tt
  render-Free (suc k) base n = elim (Bool-cases (ltb n base)) [
    | inl e ↦ rw e (digit-ne n, tt)
    | inr e ↦ rw e (
        Free-append c (render k base (n / base)) _ (render-Free k base (n / base))
          (digit-ne (n % base), tt))
  ]

  dotted_bytes-Free : (first : Bool) (bs : List ℕ) → Free c (dotted_bytes first bs)
  unfolding dotted_bytes
  dotted_bytes-Free first [] = tt
  dotted_bytes-Free true (b ∷ bs) =
      Free-append c (render 3 10 b) _ (render-Free 3 10 b) (dotted_bytes-Free false bs)
  dotted_bytes-Free false (b ∷ bs) = (
    omega arith,
    Free-append c (render 3 10 b) _ (render-Free 3 10 b) (dotted_bytes-Free false bs),
  )

  hex_string-Free : (bs : List ℕ) → Free c (hex_string bs)
  unfolding hex_string
  hex_string-Free [] = tt
  hex_string-Free (b ∷ bs) = (digit-ne (b / 16), (digit-ne (b % 16), hex_string-Free bs))

  Free-if : (b : Bool) (s t : Text) → Free c s → Free c t → Free c (if b then s else t)
  Free-if true s t h k = h
  Free-if false s t h k = k

  groups_text-Free : (i skip : ℕ) (run : ℕ × ℕ) (gs : List ℕ) → Free c (groups_text i skip run gs)
  unfolding groups_text
  groups_text-Free i skip run [] = tt
  groups_text-Free i (suc skip) run (g ∷ gs) = groups_text-Free (i + 1) skip run gs
  groups_text-Free i zero run (g ∷ gs) =
      let plain : Free c (render 4 16 g ++ groups_text (i + 1) 0 run gs) =
        Free-append c (render 4 16 g) _ (render-Free 4 16 g) (groups_text-Free (i + 1) 0 run gs) in
      Free-if (ltb 1 run.1 && i == run.0) (b':' ∷ b':' ∷ groups_text (i + 1) (run.1 - 1) run gs) _
        (omega arith, (omega arith, groups_text-Free (i + 1) (run.1 - 1) run gs))
        (Free-if (ltb 0 i && not (ltb 1 run.1 && i == run.0 + run.1))
          (b':' ∷ (render 4 16 g ++ groups_text (i + 1) 0 run gs)) _ (omega arith, plain) plain)

  address_text-Free : (v4 : Option (List ℕ)) (ip : Ip) → Free c (address_text v4 ip)
  unfolding address_text
  address_text-Free (some v4) ip = dotted_bytes-Free true v4
  address_text-Free none ip =
      Free-if (length ip == 16) _ (b'?' ∷ hex_string ip)
        (groups_text-Free 0 0 (longest_run 0 (0, 0) (groups ip)) (groups ip))
        (omega arith, hex_string-Free ip)

  pub ip_string-Free : (ip : Ip) → Free c (ip_string ip)
  unfolding ip_string
  ip_string-Free [] = omega arith
  ip_string-Free (b ∷ bs) = address_text-Free (to4 (b ∷ bs)) (b ∷ bs)
