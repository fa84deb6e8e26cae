-- ===== src/Sniffing/Headers.antt =====
-- The first bytes of a stream: the tests of isHTTP, and what the sniffer can know of them.
use gost_x.Prelude.{
  ℕ, zero, suc, ◌+◌, ◌*◌, ◌-◌, ◌≤◌, ◌≡◌, refl, ap, Bool, true, false, ◌&&◌, inl, inr, List, [], ◌∷◌,
  ◌++◌, any, length, length-append, take, drop, take-drop, leb, ◌==◌, ==_iff, arith, if◌then◌else◌,
}
use gost_x.Text.{Text, codes, eq_text, has_prefix}
use gost_x.Sniffing.{Parsers, is_http, zeros, byte_at, restore}

abbrev pub methods : List Text
methods =
    codes "GET"
    ∷ codes "POST"
    ∷ codes "PUT"
    ∷ codes "DELETE"
    ∷ codes "OPTIONS"
    ∷ codes "PATCH"
    ∷ codes "HEAD"
    ∷ codes "CONNECT"
    ∷ codes "TRACE"
    ∷ []

-- A header begins like the name of a method.
abbrev pub begins_like : Text → Text → Bool
begins_like hdr method = has_prefix hdr (take 5 method)

has_prefix-swap : (p q s : Text) → length p ≡ length s → has_prefix (p ++ q) s ≡ has_prefix s p
unfolding has_prefix
has_prefix-swap [] q [] h = refl
has_prefix-swap [] q (b ∷ s) h = absurd (omega (arith, h))
has_prefix-swap (a ∷ p) q [] h = absurd (omega (arith, h))
has_prefix-swap (a ∷ p) q (b ∷ s) h =
    ground (arith, ==_iff a b, ==_iff b a, has_prefix-swap p q s (omega (arith, h)))

has_prefix-take : (p s : Text) → has_prefix (take (length p) s) p ≡ has_prefix s p
unfolding has_prefix
has_prefix-take [] s = refl
has_prefix-take (a ∷ p) [] = refl
has_prefix-take (a ∷ p) (b ∷ s) = ap (λ y. (b == a) && y) (has_prefix-take p s)

-- The tests of isHTTP on a header of five bytes.
is_http-methods :
    (a b c d e : ℕ)
    → is_http (a ∷ b ∷ c ∷ d ∷ e ∷ []) ≡ any (begins_like (a ∷ b ∷ c ∷ d ∷ e ∷ [])) methods
unfolding is_http
is_http-methods a b c d e =
    let hdr : Text = a ∷ b ∷ c ∷ d ∷ e ∷ [] in
    rw
      (
        has_prefix-swap (codes "GET") [] (take 3 hdr) refl,
        has_prefix-swap (codes "POST") [] (take 4 hdr) refl,
        has_prefix-swap (codes "PUT") [] (take 3 hdr) refl,
        has_prefix-swap (codes "DELET") (codes "E") hdr refl,
        has_prefix-swap (codes "OPTIO") (codes "NS") hdr refl,
        has_prefix-swap (codes "PATCH") [] hdr refl,
        has_prefix-swap (codes "HEAD") [] (take 4 hdr) refl,
        has_prefix-swap (codes "CONNE") (codes "CT") hdr refl,
        has_prefix-swap (codes "TRACE") [] hdr refl,
        has_prefix-take (codes "GET") hdr,
        has_prefix-take (codes "POST") hdr,
        has_prefix-take (codes "PUT") hdr,
        has_prefix-take (codes "HEAD") hdr,
      )
      (ground arith)

pub is_http-five : (hdr : Text) → length hdr ≡ 5 → is_http hdr ≡ any (begins_like hdr) methods
is_http-five (a ∷ b ∷ c ∷ d ∷ e ∷ []) h = is_http-methods a b c d e
is_http-five [] h = absurd (omega (arith, h))
is_http-five (a ∷ []) h = absurd (omega (arith, h))
is_http-five (a ∷ b ∷ []) h = absurd (omega (arith, h))
is_http-five (a ∷ b ∷ c ∷ []) h = absurd (omega (arith, h))
is_http-five (a ∷ b ∷ c ∷ d ∷ []) h = absurd (omega (arith, h))
is_http-five (a ∷ b ∷ c ∷ d ∷ e ∷ f ∷ s) h = absurd (omega (arith, h))

-- The stream, filled up with zeros to the length of the header.
abbrev pub padded : List ℕ → List ℕ
padded w = w ++ zeros (5 - length w)

-- What the sniffer knows of a stream.
unfoldable pub is_hello : {E : Type 0} → Parsers E → List ℕ → Bool
is_hello p w =
    leb 5 (length w) && byte_at 0 w == p.handshake && byte_at 1 w * 256 + byte_at 2 w == 0x0301

unfoldable pub is_request : {E : Type 0} → Parsers E → List ℕ → Bool
is_request p w = elim (p.read_request (padded w)).1 [ inl e ↦ false | inr host ↦ true ]

unfoldable pub protocol_of : {E : Type 0} → Parsers E → List ℕ → Text
protocol_of p w =
    let hdr = take 5 (padded w) in
    if is_hello p w
    then codes "tls"
    else if any (begins_like hdr) methods && is_request p w
    then codes "http"
    else if eq_text hdr (codes "SSH-2")
    then codes "ssh"
    else []

pub restore-same : (n : ℕ) (w : List ℕ) → restore n w ≡ w
unfolding restore
restore-same n w = take-drop n w

pub zeros_none : (n : ℕ) → n ≡ 0 → zeros n ≡ []
zeros_none zero h = refl
zeros_none (suc n) h = absurd (omega (arith, h))

length-zeros : (n : ℕ) → length (zeros n) ≡ n
length-zeros zero = refl
length-zeros (suc n) = ap suc (length-zeros n)

pub length-padded : (w : List ℕ) → length w ≤ 5 → length (padded w) ≡ 5
length-padded w h =
    omega (arith, h, length-append w (zeros (5 - length w)), length-zeros (5 - length w))

pub drop_all : (n : ℕ) (w : List ℕ) → length w ≤ n → drop n w ≡ []
drop_all zero [] h = refl
drop_all zero (b ∷ w) h = absurd (omega arith)
drop_all (suc n) [] h = refl
drop_all (suc n) (b ∷ w) h = drop_all n w (omega arith)
