-- ===== src/Relay/Tests.antt =====
-- Two packets behind a header of two bytes.
use gost_x.Prelude.{
  ℕ, ◌≤◌, ◌≡◌, refl, sym, ap, false, Option, none, some, List, [], ◌∷◌, ◌++◌, All, map, length,
  take, take-all, arith, inr,
}
use gost_x.Text.{Text, codes}
use gost_x.Conns.{Conn, IsSink}
use gost_x.Relay.{
  Errs, RelayLib, put_uint16, uint16, max_uint16, read_full, read_body, read_packet, read_response,
  RelayConn, once, udp_read, buffer_write_to, write_plain, udp_write,
}
use gost_x.Relay.Framing.{udp_writes, read_packets, udp_writes-read_packets}

errs : Errs Text
errs = record {
  eof = codes "EOF";
  unexpected_eof = codes "unexpected EOF";
  short_write = codes "short write";
  too_long = codes "write: data maximum exceeded";
  bad_version = codes "bad version";
  bad_status = λ n. codes "status";
}

io : Conn (List ℕ) Text
io = record {
  read = λ len s. (([], some (codes "EOF")), s);
  write = λ b s. ((length b, none), s ++ b);
}

io-IsSink : IsSink io (λ s. s)
unfolding io
io-IsSink = record {
  written = λ b s. record {
    front = ap (λ y. s ++ y) (sym (take-all (length b) b (omega arith)));
    bound = omega arith;
    whole = λ e. refl;
  };
}

abbrev dialed : RelayConn (List ℕ)
dialed = record { wire = []; conn = []; wbuf = codes "hd"; done = false }

zeros : ℕ → List ℕ
zeros n = []

written : Option (RelayConn (List ℕ))
unfolding put_uint16 buffer_write_to write_plain udp_write udp_writes io errs
written = udp_writes errs io (codes "abc" ∷ codes "de" ∷ []) dialed

abbrev sent_two : RelayConn (List ℕ)
sent_two = record dialed {
  conn = codes "hd" ++ (0 ∷ 3 ∷ codes "abc") ++ (0 ∷ 2 ∷ codes "de");
  wbuf = [];
}

written_two : written ≡ some sent_two
unfolding written
written_two = refl

udp_writes-read_packets_example :
    (wire : List ℕ) × (sent_two.conn ≡ ([] ++ codes "hd") ++ wire)
    × (read_packets errs zeros 2 2 wire
        ≡ map (λ p. (take 2 p, none)) (codes "abc" ∷ codes "de" ∷ []))
    × All (λ p. length p ≤ max_uint16) (codes "abc" ∷ codes "de" ∷ [])
unfolding written
udp_writes-read_packets_example =
    udp_writes-read_packets errs io (λ s. s) io-IsSink zeros 2 (codes "abc") (codes "de" ∷ [])
      dialed sent_two written_two

-- A peer that refuses: its error comes with the first read only, and the next one takes the bytes
-- behind the response for a packet.
refusing : RelayLib Text
refusing = record { version1 = 1; status_ok = 0; response = λ w. (inr (1, 2), w) }

two_reads : List (List ℕ × Option Text)
unfolding uint16 read_full read_body read_packet read_response once udp_read refusing errs
two_reads =
    let c = record dialed { wire = 0 ∷ 1 ∷ codes "x" } in
    let (a, c1) = udp_read errs io refusing zeros 8 c in
    let (b, c2) = udp_read errs io refusing zeros 8 c1 in a ∷ b ∷ []

two_reads_result : two_reads ≡ ([], some (codes "status")) ∷ (codes "x", none) ∷ []
unfolding two_reads
two_reads_result = refl
