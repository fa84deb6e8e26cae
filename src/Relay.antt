-- ===== src/Relay.antt =====
-- connector/relay/conn.go and handler/relay/conn.go: the connections of the relay protocol, which send
-- a header with the first bytes, and packets over a stream behind their length. The bytes that come in
-- are a list up to the end of the stream.
pub mod Sending
pub mod Framing
mod Tests
use gost_x.Prelude.{
  ℕ, ◌+◌, ◌*◌, ◌/◌, ◌%◌, ◌-◌, Bool, true, false, Option, none, some, List, [], ◌∷◌, ◌++◌, length,
  take, drop, ltb, leb, ◌==◌, is_empty, if◌then◌else◌, ◌⊎◌, inl, inr,
}
use gost_x.Conns.{Conn}

-- The errors of packages io and relay that the code names or makes.
pub record Errs (E : Type 0) : Type 0 where
  pub eof : E
  pub unexpected_eof : E
  pub short_write : E
  pub too_long : E
  pub bad_version : E
  pub bad_status : ℕ → E

-- go-gost/relay: Version1, StatusOK, and ReadFrom of a Response, which gives the version and the status
-- or an error.
pub record RelayLib (E : Type 0) : Type 0 where
  pub version1 : ℕ
  pub status_ok : ℕ
  pub response : List ℕ → (E ⊎ (ℕ × ℕ)) × List ℕ

abbrev pub max_uint16 : ℕ
max_uint16 = 65535

-- binary.BigEndian.PutUint16 of uint16(n), and binary.BigEndian.Uint16.
unfoldable pub put_uint16 : ℕ → List ℕ
put_uint16 n = (n % 65536 / 256) ∷ (n % 65536 % 256) ∷ []

unfoldable pub uint16 : List ℕ → ℕ
uint16 [] = 0
uint16 (a ∷ []) = a
uint16 (a ∷ (b ∷ bs)) = a * 256 + b

module _ {E : Type 0} (errs : Errs E) where
  -- io.ReadFull into a buffer of length n.
  unfoldable pub read_full : ℕ → List ℕ → (List ℕ × Option E) × List ℕ
  read_full n w =
      if leb n (length w)
      then ((take n w, none), drop n w)
      else ((w, some (if is_empty w then errs.eof else errs.unexpected_eof)), [])

  -- The part of Read behind the length of the packet. A packet that is too long for the buffer is read
  -- into one of its own, whose bytes before are `stale`.
  unfoldable pub read_body : List ℕ → ℕ → ℕ → List ℕ → (List ℕ × Option E) × List ℕ
  read_body stale len dlen w =
      let ((buf, err), w') = read_full dlen w in
      if leb dlen len
      then read_full dlen w
      else ((take len (buf ++ drop (length buf) stale), err), w')

  -- (*bindUDPConn).Read, and Read of the udpConn of the handler.
  unfoldable pub read_packet : (ℕ → List ℕ) → ℕ → List ℕ → (List ℕ × Option E) × List ℕ
  read_packet stale len w =
      let ((hd, err), w') = read_full 2 w in
      elim err [
        | some e ↦ (([], some e), w')
        | none ↦ read_body (stale (uint16 hd)) len (uint16 hd) w'
      ]

  -- readResponse
  unfoldable pub read_response : RelayLib E → List ℕ → Option E × List ℕ
  read_response lib w =
      let (resp, w') = lib.response w in
      elim resp [
        | inl e ↦ (some e, w')
        | inr (version, status) ↦ (
          if version == lib.version1
              then if status == lib.status_ok then none else some (errs.bad_status status)
              else some errs.bad_version,
          w',
        )
      ]

-- udpConn and tcpConn of the connector: the stream that they wrap, as the bytes that come in and the
-- state of the connection for the bytes that go out, the header that is still to be sent, and whether
-- the response was read. The connections of the handler have the first three fields.
pub record RelayConn (S : Type 0) : Type 0 where
  pub wire : List ℕ
  pub conn : S
  pub wbuf : List ℕ
  pub done : Bool

module _ {S E : Type 0} (errs : Errs E) (io : Conn S E) where
  -- c.once.Do: the response is read once, with or without an error.
  unfoldable pub once : RelayLib E → RelayConn S → Option E × RelayConn S
  once lib c =
      let (err, w) = read_response errs lib c.wire in
      if c.done then (none, c) else (err, record c { wire = w; done = true })

  -- (*udpConn).Read of the connector.
  unfoldable pub udp_read :
      RelayLib E → (ℕ → List ℕ) → ℕ → RelayConn S → (List ℕ × Option E) × RelayConn S
  udp_read lib stale len c =
      let (err, c') = once lib c in
      let (r, w) = read_packet errs stale len c'.wire in
      elim err [ some e ↦ (([], some e), c') | none ↦ (r, record c' { wire = w }) ]

  -- WriteTo of a bytes.Buffer that is not empty: its error, and what is left in it.
  unfoldable pub buffer_write_to : List ℕ → S → (Option E × List ℕ) × S
  buffer_write_to b s =
      let ((m, err), s') = io.write b s in
      elim err [
        | some e ↦ ((some e, drop m b), s')
        | none ↦ (if m == length b then (none, []) else (some errs.short_write, drop m b), s')
      ]

  -- A packet behind its length, in two writes; `n` is what is returned if the first one fails.
  unfoldable pub write_plain : ℕ → List ℕ → S → (ℕ × Option E) × S
  write_plain n b s =
      let ((m, err), s') = io.write (put_uint16 (length b)) s in
      elim err [ some e ↦ ((n, some e), s') | none ↦ io.write b s' ]

  -- (*udpConn).Write, of the connector and of the handler.
  unfoldable pub udp_write : List ℕ → RelayConn S → (ℕ × Option E) × RelayConn S
  udp_write b c =
      let ((err, left), s) = buffer_write_to (c.wbuf ++ put_uint16 (length b) ++ b) c.conn in
      let (r, t) = write_plain (length b) b c.conn in
      if ltb max_uint16 (length b)
      then ((0, some errs.too_long), c)
      else if is_empty c.wbuf
      then (r, record c { conn = t })
      else ((length b, err), record c { conn = s; wbuf = left })

  -- (*bindUDPConn).Write
  unfoldable pub bind_write : List ℕ → S → (ℕ × Option E) × S
  bind_write b s =
      let r = write_plain 0 b s in
      if ltb max_uint16 (length b) then ((0, some errs.too_long), s) else r

  -- (*tcpConn).Read of the connector, for the Read of the stream.
  unfoldable pub tcp_read :
      (ℕ → List ℕ → (List ℕ × Option E) × List ℕ)
      → RelayLib E
      → ℕ
      → RelayConn S
      → (List ℕ × Option E) × RelayConn S
  tcp_read stream lib len c =
      let (err, c') = once lib c in
      let (r, w) = stream len c'.wire in
      elim err [ some e ↦ (([], some e), c') | none ↦ (r, record c' { wire = w }) ]

  -- (*tcpConn).Write of the handler.
  unfoldable pub tcp_write : List ℕ → RelayConn S → (ℕ × Option E) × RelayConn S
  tcp_write b c =
      let ((err, left), s) = buffer_write_to (c.wbuf ++ b) c.conn in
      let ((m, err'), t) = io.write b c.conn in
      if is_empty c.wbuf
      then ((length b, err'), record c { conn = t })
      else ((length b, err), record c { conn = s; wbuf = left })

  -- (*tcpConn).Write of the connector, which forgets the header also on an error.
  unfoldable pub tcp_write_dial : List ℕ → RelayConn S → (ℕ × Option E) × RelayConn S
  tcp_write_dial b c =
      let ((m, err), s) = io.write (c.wbuf ++ b) c.conn in
      ((length b, err), record c { conn = s; wbuf = [] })
