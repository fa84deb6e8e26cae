-- ===== src/Sniffing.antt =====
-- internal/util/forward/forward.go: which protocol the first bytes of a stream belong to. The stream is
-- the list of its bytes up to its end; what the sniffer reads from it is put in front of it again.
pub mod Headers
pub mod Restored
mod Tests
use gost_x.Prelude.{
  ℕ, zero, suc, ◌+◌, ◌*◌, ◌-◌, Bool, true, false, ◌&&◌, ◌||◌, Option, none, some, List, [], ◌∷◌,
  ◌++◌, length, take, drop, leb, ◌==◌, is_empty, get_elem?, if◌then◌else◌, ◌⊎◌, inl, inr,
}
use gost_x.Text.{Text, codes, eq_text, has_prefix}

-- An extension of a client hello, in go-gost/tls-dissector.
pub data Extension : Type 0 where
  server_name : Text → Extension
  other : Extension

-- go-gost/tls-dissector: ReadRecord, with the number of bytes that it reads, and Decode of the opaque
-- part of a record as a client hello, with its extensions. The parser of requests of net/http: the
-- number of bytes that it reads, and the host of the request. `eof` and `unexpected_eof` are those of
-- package io.
pub record Parsers (E : Type 0) : Type 0 where
  pub record_header_len : ℕ
  pub handshake : ℕ
  pub read_record : List ℕ → ℕ × (E ⊎ List ℕ)
  pub decode : List ℕ → E ⊎ List Extension
  pub read_request : List ℕ → ℕ × (E ⊎ Text)
  pub eof : E
  pub unexpected_eof : E

pub record Sniffed (E : Type 0) : Type 0 where
  pub rw : List ℕ
  pub host : Text
  pub protocol : Text
  pub err : Option E

abbrev pub proto_http : Text
proto_http = codes "http"

abbrev pub proto_tls : Text
proto_tls = codes "tls"

abbrev pub proto_sshv2 : Text
proto_sshv2 = codes "SSH-2"

unfoldable pub is_http : Text → Bool
is_http s =
    has_prefix (codes "GET") (take 3 s)
    || has_prefix (codes "POST") (take 4 s)
    || has_prefix (codes "PUT") (take 3 s)
    || has_prefix (codes "DELETE") s
    || has_prefix (codes "OPTIONS") s
    || has_prefix (codes "PATCH") s
    || has_prefix (codes "HEAD") (take 4 s)
    || has_prefix (codes "CONNECT") s
    || has_prefix (codes "TRACE") s

unfoldable pub sniff_protocol : List ℕ → Text
sniff_protocol hdr = if eq_text hdr proto_sshv2 then codes "ssh" else []

abbrev pub zeros : ℕ → List ℕ
zeros zero = []
zeros (suc n) = 0 ∷ zeros n

-- hdr[i], for a header that is long enough.
unfoldable pub byte_at : ℕ → List ℕ → ℕ
byte_at i hdr = elim (get_elem? hdr i) [ none ↦ 0 | some b ↦ b ]

-- xio.NewReadWriter(io.MultiReader(buf, rw), rw), where the buffer of an io.TeeReader has the first n
-- bytes of the stream.
unfoldable pub restore : ℕ → List ℕ → List ℕ
restore n w = take n w ++ drop n w

-- The loop over the extensions.
unfoldable pub first_name : List Extension → Text
first_name [] = []
first_name (server_name name ∷ es) = name
first_name (other ∷ es) = first_name es

module _ {E : Type 0} (p : Parsers E) where
  -- getServerName, with the number of bytes that it reads.
  unfoldable pub get_server_name : List ℕ → ℕ × (Text × Option E)
  get_server_name w =
      let (n, r) = p.read_record w in
      (
        n,
        elim r [
          | inl e ↦ ([], some e)
          | inr opaque ↦ elim (p.decode opaque) [
            | inl e ↦ ([], some e)
            | inr es ↦ (first_name es, none)
          ]
        ],
      )

  unfoldable pub sniff_sni : List ℕ → Sniffed E
  sniff_sni w =
      let (n, (host, err)) = get_server_name w in
      record { rw = restore n w; host = host; protocol = proto_tls; err = err }

  -- The branch for HTTP; `err` is the error of the read of the header.
  unfoldable pub sniff_http : List ℕ → List ℕ → Sniffed E
  sniff_http hdr w =
      let (n, r) = p.read_request w in
      elim r [
        | inr host ↦ record { rw = restore n w; host = host; protocol = proto_http; err = none }
        | inl e ↦ record {
          rw = restore n w;
          host = [];
          protocol = sniff_protocol hdr;
          err = some e;
        }
      ]

  -- io.ReadFull into the header: the array, the rest of the stream, and the error.
  unfoldable pub read_header : List ℕ → (List ℕ × List ℕ) × Option E
  read_header w =
      let n = p.record_header_len in
      (
        (take n w ++ zeros (n - length w), drop n w),
        if leb n (length w) then none else if is_empty w then some p.eof else some p.unexpected_eof,
      )

  -- err == nil && hdr[0] == dissector.Handshake && Uint16(hdr[1:3]) == tls.VersionTLS10
  unfoldable pub is_tls : List ℕ → Option E → Bool
  is_tls hdr none = byte_at 0 hdr == p.handshake && byte_at 1 hdr * 256 + byte_at 2 hdr == 0x0301
  is_tls hdr (some e) = false

  -- What follows the read of the header.
  unfoldable pub sniff_header : List ℕ → List ℕ → Option E → Sniffed E
  sniff_header hdr rest err =
      if is_tls hdr err
      then sniff_sni (hdr ++ rest)
      else if is_http hdr
      then sniff_http hdr (hdr ++ rest)
      else record { rw = hdr ++ rest; host = []; protocol = sniff_protocol hdr; err = err }

  unfoldable pub sniffing : List ℕ → Sniffed E
  sniffing w = let ((hdr, rest), err) = read_header w in sniff_header hdr rest err
