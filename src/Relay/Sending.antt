-- ===== src/Relay/Sending.antt =====
-- One packet over a stream: its frame, and what a read and a write make of it.
use gost_x.Prelude.{
  ℕ, ◌≤◌, ◌≡◌, refl, sym, ap, ◌∙◌, false, Option, none, some, Option-cases, Bool-cases, inl, inr,
  List, [], ◌++◌, append-nil, append_assoc, length, take, drop, length-append, take-append,
  drop-append, take-all, take-append_front, ltb, leb, ◌==◌, is_empty, is_empty-nil, arith,
}
use gost_x.Conns.{Conn, IsSink}
use gost_x.Relay.{
  Errs, put_uint16, uint16, max_uint16, read_full, read_body, read_packet, RelayConn,
  buffer_write_to, write_plain, udp_write,
}

pub frame : List ℕ → List ℕ
frame b = put_uint16 (length b) ++ b

uint16-put_uint16 : (n : ℕ) → n ≤ max_uint16 → uint16 (put_uint16 n) ≡ n
unfolding uint16 put_uint16
uint16-put_uint16 n h = omega arith

length-put_uint16 : (n : ℕ) → length (put_uint16 n) ≡ 2
unfolding put_uint16
length-put_uint16 n = refl

module _ {E : Type 0} (errs : Errs E) where
  read_full-append : (b rest : List ℕ) → read_full errs (length b) (b ++ rest) ≡ ((b, none), rest)
  unfolding read_full
  read_full-append b rest =
      ground (arith, length-append b rest, take-append b rest, drop-append b rest)

  read_body-append :
      (stale : List ℕ) (len : ℕ) (b rest : List ℕ)
      → read_body errs stale len (length b) (b ++ rest) ≡ ((take len b, none), rest)
  unfolding read_body
  read_body-append stale len b rest = elim (Bool-cases (leb (length b) len)) [
    | inl e ↦
        rw (e, read_full-append b rest)
          (ap (λ y. ((y, none), rest)) (sym (take-all len b (ground arith))))
    | inr e ↦
        rw (e, read_full-append b rest)
          (ap (λ y. ((y, none), rest))
            (take-append_front len b (drop (length b) stale) (ground arith)))
  ]

  -- Reading a packet takes its frame from the stream.
  pub read_packet-frame :
      (stale : ℕ → List ℕ) (len : ℕ) (b rest : List ℕ)
      → length b ≤ max_uint16
      → read_packet errs stale len (frame b ++ rest) ≡ ((take len b, none), rest)
  unfolding read_packet frame
  read_packet-frame stale len b rest h = ground (
    arith,
    read_full-append (put_uint16 (length b)) (b ++ rest),
    uint16-put_uint16 (length b) h,
    read_body-append (stale (length b)) len b rest,
    append_assoc (put_uint16 (length b)) b rest,
    length-put_uint16 (length b),
  )

module _ {S E : Type 0} (errs : Errs E) (io : Conn S E) (sent : S → List ℕ)
    (sink : IsSink io sent) where
  -- A write without an error sends all bytes.
  sends : (b : List ℕ) (s : S) → (io.write b s).0.1 ≡ none → sent (io.write b s).1 ≡ sent s ++ b
  sends b s e =
      let written = sink.written b s in
      written.front ∙ ap (λ y. sent s ++ y) (take-all _ b (omega (arith, written.whole e)))

  -- So does WriteTo of a buffer, and nothing is left in it.
  IsFlushed : List ℕ → S → (Option E × List ℕ) × S → Type 0
  IsFlushed b s r = r.0.0 ≡ none → (r.0.1 ≡ []) × (sent r.1 ≡ sent s ++ b)

  buffer_write_to-IsFlushed : (b : List ℕ) (s : S) → IsFlushed b s (buffer_write_to errs io b s)
  unfolding buffer_write_to IsFlushed
  buffer_write_to-IsFlushed b s = elim (Option-cases (io.write b s).0.1) [
    | inr (x, f) ↦ rw (f, buffer_write_to) (λ e. absurd cc)
    | inl f ↦ elim (Bool-cases ((io.write b s).0.0 == length b)) [
      | inl g ↦ rw (f, g, buffer_write_to) (λ e. (refl, sends b s f))
      | inr g ↦ rw (f, g, buffer_write_to) (λ e. absurd cc)
    ]
  ]

  IsSent : List ℕ → S → (ℕ × Option E) × S → Type 0
  IsSent b s r = r.0.1 ≡ none → (r.0.0 ≡ length b) × (sent r.1 ≡ sent s ++ frame b)

  write_plain-IsSent : (n : ℕ) (b : List ℕ) (s : S) → IsSent b s (write_plain errs io n b s)
  unfolding write_plain IsSent frame
  write_plain-IsSent n b s =
      let hd = put_uint16 (length b) in
      elim (Option-cases (io.write hd s).0.1) [
        | inr (x, f) ↦ rw (f, write_plain) (λ e. absurd cc)
        | inl f ↦
            rw (f, write_plain)
              (λ e. (
                (sink.written b (io.write hd s).1).whole e,
                sends b (io.write hd s).1 e
                    ∙ ap (λ y. y ++ b) (sends hd s f)
                    ∙ append_assoc (sent s) hd b,
              ))
      ]

  -- A packet that was written: it is short enough, and its frame is behind what was sent and what the
  -- buffer holds.
  unfoldable pub IsPacket : List ℕ → RelayConn S → (ℕ × Option E) × RelayConn S → Type 0
  IsPacket b c r =
      r.0.1 ≡ none
      → (length b ≤ max_uint16)
        × (r.0.0 ≡ length b)
        × (r.1.wbuf ≡ [])
        × (sent r.1.conn ≡ (sent c.conn ++ c.wbuf) ++ frame b)

  plain-IsPacket :
      (b : List ℕ) (c : RelayConn S)
      → ltb max_uint16 (length b) ≡ false
      → c.wbuf ≡ []
      → IsPacket b c (
        (write_plain errs io (length b) b c.conn).0,
        record c { conn = (write_plain errs io (length b) b c.conn).1 },
      )
  unfolding IsPacket IsSent
  plain-IsPacket b c p w e =
      let was = write_plain-IsSent (length b) b c.conn e in
      (
        ground arith,
        was.0,
        w,
        was.1
            ∙ ap (λ y. y ++ frame b)
                (sym (append-nil (sent c.conn)) ∙ ap (λ y. sent c.conn ++ y) (sym w)),
      )

  flushed-IsPacket :
      (b : List ℕ) (c : RelayConn S)
      → ltb max_uint16 (length b) ≡ false
      → let w = buffer_write_to errs io (c.wbuf ++ put_uint16 (length b) ++ b) c.conn in
        IsPacket b c ((length b, w.0.0), record c { conn = w.1; wbuf = w.0.1 })
  unfolding IsPacket IsFlushed frame
  flushed-IsPacket b c p e =
      let all = c.wbuf ++ put_uint16 (length b) ++ b in
      let w = buffer_write_to errs io all c.conn in
      let was = buffer_write_to-IsFlushed all c.conn e in
      (
        ground arith,
        refl,
        was.0,
        was.1
            ∙ ap (λ y. sent c.conn ++ y) (append_assoc c.wbuf (put_uint16 (length b)) b)
            ∙ sym (append_assoc (sent c.conn) c.wbuf (frame b)),
      )

  too_long-IsPacket : (b : List ℕ) (c : RelayConn S) → IsPacket b c ((0, some errs.too_long), c)
  unfolding IsPacket
  too_long-IsPacket b c e = absurd cc

  pub udp_write-IsPacket : (b : List ℕ) (c : RelayConn S) → IsPacket b c (udp_write errs io b c)
  unfolding udp_write
  udp_write-IsPacket b c = elim (Bool-cases (ltb max_uint16 (length b))) [
    | inl p ↦ rw p (too_long-IsPacket b c)
    | inr p ↦ elim (Bool-cases (is_empty c.wbuf)) [
      | inl q ↦ rw (p, q) (plain-IsPacket b c p (is_empty-nil c.wbuf q))
      | inr q ↦ rw (p, q) (flushed-IsPacket b c p)
    ]
  ]
