-- ===== src/Sniffing/Restored.antt =====
-- The sniffer gives the stream back, and names its protocol.
use gost_x.Prelude.{
  ℕ, ◌-◌, ◌≡◌, refl, sym, ap, ◌∙◌, true, false, ◌&&◌, Bool-cases, ◌⊎◌, inl, inr, Option, none, some,
  List, [], ◌∷◌, ◌++◌, append-nil, length, length-take, take, drop, take-drop, take-all, leb,
  is_empty, arith, if◌then◌else◌,
}
use gost_x.Text.{codes}
use gost_x.Sniffing.{
  Parsers, Sniffed, is_http, sniff_protocol, byte_at, get_server_name, sniff_sni, sniff_http,
  sniff_header, read_header, is_tls, sniffing,
}
use gost_x.Sniffing.Headers.{
  is_http-five, padded, is_hello, is_request, protocol_of, restore-same, zeros_none, length-padded,
  drop_all,
}

-- The header of a stream with at least five bytes, and that of a shorter one.
read_header-long :
    {E : Type 0} (p : Parsers E) (w : List ℕ)
    → p.record_header_len ≡ 5
    → leb 5 (length w) ≡ true
    → (read_header p w ≡ ((take 5 w, drop 5 w), none)) × (padded w ≡ w)
unfolding read_header
read_header-long p w five h =
    let z = zeros_none (5 - length w) (ground arith) in
    (
      rw (five, h, z) (ap (λ y. ((y, drop 5 w), none)) (append-nil (take 5 w))),
      ap (λ y. w ++ y) z ∙ append-nil w,
    )

read_header-short :
    {E : Type 0} (p : Parsers E) (w : List ℕ)
    → p.record_header_len ≡ 5
    → leb 5 (length w) ≡ false
    → (e : E) × (read_header p w ≡ ((padded w, []), some e))
unfolding read_header
read_header-short p w five h = (
  if is_empty w then p.eof else p.unexpected_eof,
  rw (five, h, take-all 5 w (ground arith), drop_all 5 w (ground arith)) (ground arith),
)

is_tls-hello :
    {E : Type 0} (p : Parsers E) (w : List ℕ)
    → leb 5 (length w) ≡ true
    → is_tls p (take 5 w) none ≡ is_hello p w
unfolding is_tls is_hello byte_at
is_tls-hello p (a ∷ b ∷ c ∷ d ∷ e ∷ w) h = ground arith
is_tls-hello p [] h = absurd (ground arith)
is_tls-hello p (a ∷ []) h = absurd (ground arith)
is_tls-hello p (a ∷ b ∷ []) h = absurd (ground arith)
is_tls-hello p (a ∷ b ∷ c ∷ []) h = absurd (ground arith)
is_tls-hello p (a ∷ b ∷ c ∷ d ∷ []) h = absurd (ground arith)

is_tls-short :
    {E : Type 0} (p : Parsers E) (hdr : List ℕ) (e : E) (w : List ℕ)
    → leb 5 (length w) ≡ false
    → is_tls p hdr (some e) ≡ is_hello p w
unfolding is_tls is_hello
is_tls-short p hdr e w h = ground arith

sum-cases : {A B : Type 0} (x : A ⊎ B) → ((a : A) × (x ≡ inl a)) ⊎ ((b : B) × (x ≡ inr b))
sum-cases (inl a) = inl (a, refl)
sum-cases (inr b) = inr (b, refl)

IsSniffed : {E : Type 0} → Parsers E → List ℕ → Sniffed E → Type 0
IsSniffed p w r = (r.rw ≡ padded w) × (r.protocol ≡ protocol_of p w)

module _ {E : Type 0} (p : Parsers E) (w hdr rest : List ℕ) (err : Option E)
    (s : hdr ++ rest ≡ padded w) (t : hdr ≡ take 5 (padded w)) (five : length hdr ≡ 5)
    (tls : is_tls p hdr err ≡ is_hello p w) where
  protocol_of-header : protocol_of p w ≡ (
      if is_hello p w
      then codes "tls"
      else if is_http hdr && is_request p w
      then codes "http"
      else sniff_protocol hdr)
  unfolding protocol_of sniff_protocol
  protocol_of-header = rw (sym t, is_http-five hdr five) refl

  request_of :
      is_request p w ≡ (elim (p.read_request (hdr ++ rest)).1 [ inl e ↦ false | inr host ↦ true ])
  unfolding is_request
  request_of = rw s refl

  sniff_sni-IsSniffed : is_hello p w ≡ true → IsSniffed p w (sniff_sni p (hdr ++ rest))
  unfolding sniff_sni IsSniffed
  sniff_sni-IsSniffed h = (
    restore-same (get_server_name p (hdr ++ rest)).0 (hdr ++ rest) ∙ s,
    ground (arith, protocol_of-header),
  )

  sniff_http-IsSniffed :
      is_hello p w ≡ false → is_http hdr ≡ true → IsSniffed p w (sniff_http p hdr (hdr ++ rest))
  unfolding sniff_http IsSniffed
  sniff_http-IsSniffed h k =
      let r = p.read_request (hdr ++ rest) in
      let same = restore-same r.0 (hdr ++ rest) ∙ s in
      elim (sum-cases r.1) [
        | inl (e, f) ↦ rw (f, sniff_http) (same, ground (arith, protocol_of-header, request_of))
        | inr (host, f) ↦ rw (f, sniff_http) (same, ground (arith, protocol_of-header, request_of))
      ]

  sniff_header-IsSniffed : IsSniffed p w (sniff_header p hdr rest err)
  unfolding sniff_header IsSniffed
  sniff_header-IsSniffed = elim (Bool-cases (is_hello p w)) [
    | inl h ↦ rw (tls, h) (sniff_sni-IsSniffed h)
    | inr h ↦ elim (Bool-cases (is_http hdr)) [
      | inl k ↦ rw (tls, h, k) (sniff_http-IsSniffed h k)
      | inr k ↦ rw (tls, h, k) (s, ground (arith, protocol_of-header))
    ]
  ]

-- Sniffing gives back the whole stream in front of what it had read, whatever the parsers read of it,
-- but fills up a stream of less than five bytes with zeros. The protocol is "tls" for at least five
-- bytes that begin like a handshake of TLS 1.0, else "http" if the first five bytes are those of the
-- name of a method and a request can be read, else "ssh" if they are "SSH-2", else none. This is for a
-- TLS record header of five bytes.
pub sniffing-protocol :
    {E : Type 0} (p : Parsers E) (w : List ℕ)
    → p.record_header_len ≡ 5
    → ((sniffing p w).rw ≡ padded w) × ((sniffing p w).protocol ≡ protocol_of p w)
unfolding sniffing IsSniffed
sniffing-protocol p w five = elim (Bool-cases (leb 5 (length w))) [
  | inl h ↦
      let (e, q) = read_header-long p w five h in
      rw (e, sniffing)
        (sniff_header-IsSniffed p w (take 5 w) (drop 5 w) none (take-drop 5 w ∙ sym q)
          (ap (take 5) (sym q)) (length-take 5 w (ground arith)) (is_tls-hello p w h))
  | inr h ↦
      let (x, e) = read_header-short p w five h in
      let full = length-padded w (ground arith) in
      rw (e, sniffing)
        (sniff_header-IsSniffed p w (padded w) [] (some x) (append-nil (padded w))
          (sym (take-all 5 (padded w) (omega (arith, full)))) full
          (is_tls-short p (padded w) x w h))
]
