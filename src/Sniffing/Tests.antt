-- ===== src/Sniffing/Tests.antt =====
-- Streams of a few protocols.
use gost_x.Prelude.{ℕ, ◌≡◌, refl, List, [], ◌∷◌, ◌++◌, inr}
use gost_x.Text.{Text, codes, eq_text, has_prefix}
use gost_x.Sniffing.{
  server_name, other, Parsers, first_name, get_server_name, is_http, sniff_protocol, byte_at,
  restore, sniff_sni, sniff_http, sniff_header, read_header, is_tls, sniffing,
}
use gost_x.Sniffing.Headers.{padded, protocol_of}
use gost_x.Sniffing.Restored.{sniffing-protocol}

-- A parser of requests that reads eight bytes and wants a blank there.
parsers : Parsers Text
parsers = record {
  record_header_len = 5;
  handshake = 22;
  read_record = λ w. (9, inr w);
  decode = λ w. inr (other ∷ server_name (codes "example.com") ∷ []);
  read_request = λ w. (8, inr (codes "example.org"));
  eof = codes "EOF";
  unexpected_eof = codes "unexpected EOF";
}

protocols : List Text
unfolding eq_text has_prefix is_http sniff_protocol byte_at restore first_name get_server_name
    sniff_sni sniff_http sniff_header read_header is_tls sniffing parsers
protocols =
    (sniffing parsers (codes "GET / HTTP/1.1")).protocol
    ∷ (sniffing parsers (22 ∷ 3 ∷ 1 ∷ 0 ∷ 9 ∷ 1 ∷ [])).protocol
    ∷ (sniffing parsers (codes "SSH-2.0")).protocol
    ∷ (sniffing parsers (codes "DELET")).protocol
    ∷ (sniffing parsers (codes "hello")).protocol
    ∷ []

protocols_result : protocols ≡ codes "http" ∷ codes "tls" ∷ codes "ssh" ∷ codes "http" ∷ [] ∷ []
unfolding protocols
protocols_result = refl

-- The host of a stream for TLS.
tls_host : Text
unfolding eq_text has_prefix is_http sniff_protocol byte_at restore first_name get_server_name
    sniff_sni sniff_http sniff_header read_header is_tls sniffing parsers
tls_host = (sniffing parsers (22 ∷ 3 ∷ 1 ∷ 0 ∷ 9 ∷ 1 ∷ [])).host

tls_host_result : tls_host ≡ codes "example.com"
unfolding tls_host
tls_host_result = refl

-- Two bytes become five.
short_stream : List ℕ
unfolding eq_text has_prefix is_http sniff_protocol byte_at restore first_name get_server_name
    sniff_sni sniff_http sniff_header read_header is_tls sniffing parsers
short_stream = (sniffing parsers (codes "hi")).rw

short_stream_result : short_stream ≡ codes "hi" ++ (0 ∷ 0 ∷ 0 ∷ [])
unfolding short_stream
short_stream_result = refl

sniffing-protocol_example :
    ((sniffing parsers (codes "SSH-2.0")).rw ≡ padded (codes "SSH-2.0"))
    × ((sniffing parsers (codes "SSH-2.0")).protocol ≡ protocol_of parsers (codes "SSH-2.0"))
unfolding parsers
sniffing-protocol_example = sniffing-protocol parsers (codes "SSH-2.0") refl
