-- ===== src/Relay/Framing.antt =====
-- Packets over a stream: what is written is read back, packet by packet.
use gost_x.Prelude.{
  ℕ, zero, suc, ◌≤◌, ◌≡◌, refl, sym, ap, ◌∙◌, Option, none, some, Option-cases, inl, inr, List, [],
  ◌∷◌, ◌++◌, append-nil, append_assoc, All, map, length, take, some_inj, arith,
}
use gost_x.Conns.{Conn, IsSink}
use gost_x.Relay.{Errs, max_uint16, read_packet, RelayConn, udp_write}
use gost_x.Relay.Sending.{frame, read_packet-frame, IsPacket, udp_write-IsPacket}

-- Writes of packets one after the other, `none` as soon as one returns an error.
unfoldable pub udp_writes :
    {S E : Type 0} → Errs E → Conn S E → List (List ℕ) → RelayConn S → Option (RelayConn S)
udp_writes errs io [] c = some c
udp_writes errs io (b ∷ bs) c =
    let (r, c') = udp_write errs io b c in
    elim r.1 [ some e ↦ none | none ↦ udp_writes errs io bs c' ]

-- So many reads of packets.
unfoldable pub read_packets :
    {E : Type 0} → Errs E → (ℕ → List ℕ) → ℕ → ℕ → List ℕ → List (List ℕ × Option E)
read_packets errs stale len zero w = []
read_packets errs stale len (suc k) w =
    let (r, w') = read_packet errs stale len w in r ∷ read_packets errs stale len k w'

frames : List (List ℕ) → List ℕ
frames [] = []
frames (b ∷ bs) = frame b ++ frames bs

abbrev IsShort : List ℕ → Type 0
IsShort b = length b ≤ max_uint16

read_packets-frames :
    {E : Type 0} (errs : Errs E) (stale : ℕ → List ℕ) (len : ℕ) (bs : List (List ℕ))
    → All IsShort bs
    → read_packets errs stale len (length bs) (frames bs) ≡ map (λ b. (take len b, none)) bs
unfolding read_packets frames
read_packets-frames errs stale len [] h = refl
read_packets-frames errs stale len (b ∷ bs) h =
    rw (read_packet-frame errs stale len b (frames bs) h.0)
      (ap (λ y. (take len b, none) ∷ y) (read_packets-frames errs stale len bs h.1))

module _ {S E : Type 0} (errs : Errs E) (io : Conn S E) (sent : S → List ℕ)
    (sink : IsSink io sent) where
  -- Packets behind an empty buffer.
  udp_writes-frames :
      (bs : List (List ℕ)) (c c' : RelayConn S)
      → c.wbuf ≡ []
      → udp_writes errs io bs c ≡ some c'
      → All IsShort bs × (c'.wbuf ≡ []) × (sent c'.conn ≡ sent c.conn ++ frames bs)
  unfolding udp_writes frames IsPacket
  udp_writes-frames [] c c' w e = (
    tt,
    ap (λ d. d.wbuf) (sym (some_inj c c' e)) ∙ w,
    ap (λ d. sent d.conn) (sym (some_inj c c' e)) ∙ sym (append-nil (sent c.conn)),
  )
  udp_writes-frames (b ∷ bs) c c' w e = elim (Option-cases (udp_write errs io b c).0.1) [
    | inr (x, f) ↦ absurd (ground arith)
    | inl f ↦
        let was = udp_write-IsPacket errs io sent sink b c f in
        let rest = udp_writes-frames bs (udp_write errs io b c).1 c' was.2 (ground arith) in
        (
          (was.0, rest.0),
          rest.1,
          rest.2
              ∙ ap (λ y. y ++ frames bs)
                  (was.3
                    ∙ ap (λ y. (sent c.conn ++ y) ++ frame b) w
                    ∙ ap (λ y. y ++ frame b) (append-nil (sent c.conn)))
              ∙ append_assoc (sent c.conn) (frame b) (frames bs),
        )
  ]

-- What the peer reads after packets, at least one, were written without an error: behind the bytes
-- that were sent before, and the header, if it was not sent yet, it reads each of the packets, in
-- order and cut off at the length of its buffer. No write without an error has a packet of more than
-- 65535 bytes.
pub udp_writes-read_packets :
    {S E : Type 0} (errs : Errs E) (io : Conn S E) (sent : S → List ℕ)
    → IsSink io sent
    → (stale : ℕ → List ℕ) (len : ℕ) (b : List ℕ) (bs : List (List ℕ)) (c c' : RelayConn S)
    → udp_writes errs io (b ∷ bs) c ≡ some c'
    → (wire : List ℕ) × (sent c'.conn ≡ (sent c.conn ++ c.wbuf) ++ wire)
      × (read_packets errs stale len (length (b ∷ bs)) wire
          ≡ map (λ p. (take len p, none)) (b ∷ bs))
      × All (λ p. length p ≤ max_uint16) (b ∷ bs)
unfolding udp_writes frames IsPacket
udp_writes-read_packets errs io sent sink stale len b bs c c' e =
    elim (Option-cases (udp_write errs io b c).0.1) [
      | inr (x, f) ↦ absurd (ground arith)
      | inl f ↦
          let was = udp_write-IsPacket errs io sent sink b c f in
          let rest =
            udp_writes-frames errs io sent sink bs (udp_write errs io b c).1 c' was.2
              (ground arith) in
          (
            frames (b ∷ bs),
            rest.2
                ∙ ap (λ y. y ++ frames bs) was.3
                ∙ append_assoc (sent c.conn ++ c.wbuf) (frame b) (frames bs),
            read_packets-frames errs stale len (b ∷ bs) (was.0, rest.0),
            (was.0, rest.0),
          )
    ]
