-- ===== src/Limiter/Stream/Chunks.antt =====
-- The parts of Read.
use gost_x.Prelude.{
  is_empty-nil, ℕ, ◌≤◌, ◌<◌, ◌≡◌, refl, sym, ap, ◌∙◌, false, none, Option-cases, Bool-cases, inl,
  inr, List, [], ◌∷◌, ◌++◌, append_assoc, All, length, take, drop, take-drop, take-all, length-take,
  ltb, is_empty, if◌then◌else◌, arith,
}
use gost_x.Int64.{sign_bit}
use gost_x.Limiter.Traffic.Waiting.{IsRate, group_wait, group_wait-IsWait}
use gost_x.Conns.{Conn, IsRead, IsSource}
use gost_x.Limiter.Stream.{ServerConn, keep_rest, from_rbuf, from_conn, limited_read}

-- What the wrapped connection still gives.
abbrev pub pending_with : {S : Type 0} → (S → List ℕ) → ServerConn S → List ℕ
pending_with pending c = c.rbuf ++ pending c.conn

front_split : (n : ℕ) (bs rest : List ℕ) → bs ++ rest ≡ take n bs ++ (drop n bs ++ rest)
front_split n bs rest =
    ap (λ y. y ++ rest) (sym (take-drop n bs)) ∙ append_assoc (take n bs) (drop n bs) rest

is_empty-length : (bs : List ℕ) → is_empty bs ≡ false → 0 < length bs
is_empty-length [] e = absurd cc
is_empty-length (b ∷ bs) e = omega arith

-- The length of what is taken from the bytes that are kept.
record IsTaken (len : ℕ) (bs : List ℕ) (lim : ℕ) : Type 0 where
  fits_buffer : lim ≤ len
  fits_bytes : lim ≤ length bs
  takes_some : 0 < len → 0 < lim

group_wait-IsTaken :
    (g : List ℕ)
    → All IsRate g
    → (len : ℕ) (bs : List ℕ) → len < sign_bit
    → 0 < length bs
    → IsTaken len bs (group_wait g (if ltb (length bs) len then length bs else len))
group_wait-IsTaken g h len bs q p =
    let wait = group_wait-IsWait g h in
    record {
      fits_buffer = ground (arith, wait.at_most (length bs), wait.at_most len);
      fits_bytes = ground (arith, wait.at_most (length bs), wait.at_most len);
      takes_some = λ o. ground (arith, wait.positive (length bs), wait.positive len);
    }

module _ {S E : Type 0} (pending : S → List ℕ) (g : List ℕ) (h : All IsRate g) (len : ℕ)
    (q : len < sign_bit) (c : ServerConn S) where
  from_rbuf-IsRead :
      is_empty c.rbuf ≡ false → IsRead {E = E} (pending_with pending) len c (from_rbuf g len c)
  unfolding from_rbuf
  from_rbuf-IsRead e =
      let lim = group_wait g (if ltb (length c.rbuf) len then length c.rbuf else len) in
      let taken = group_wait-IsTaken g h len c.rbuf q (is_empty-length c.rbuf e) in
      record {
        front = front_split lim c.rbuf (pending c.conn);
        bound = omega (arith, taken.fits_buffer, length-take lim c.rbuf taken.fits_bytes);
        some_bytes =
            λ n o. omega (arith, taken.takes_some o, length-take lim c.rbuf taken.fits_bytes);
      }

  -- A read of the connection of which some bytes are kept.
  keep_rest-IsRead :
      (bs : List ℕ) (s : S)
      → IsRead {E = E} pending len c.conn ((bs, none), s)
      → c.rbuf ≡ []
      → IsRead {E = E} (pending_with pending) len c (keep_rest g bs (record c { conn = s }))
  unfolding keep_rest
  keep_rest-IsRead bs s r e =
      let wait = group_wait-IsWait g h in
      let n = group_wait g (length bs) in
      let at_most = wait.at_most (length bs) (omega (arith, r.bound)) in
      elim (Bool-cases (ltb n (length bs))) [
        | inl f ↦
            rw (f, e)
              (record {
                front = r.front ∙ front_split n bs (pending s);
                bound = omega (arith, r.bound, length-take n bs at_most);
                some_bytes = λ o l. ground (
                  arith,
                  r.some_bytes refl l,
                  wait.positive (length bs),
                  length-take n bs at_most,
                  r.bound,
                );
              })
        | inr f ↦
            rw (f, e)
              (record {
                front = r.front ∙ ap (λ y. y ++ pending s) (sym (take-all n bs (ground arith)));
                bound = omega (arith, r.bound, length-take n bs at_most);
                some_bytes = λ o l. ground (
                  arith,
                  r.some_bytes refl l,
                  wait.positive (length bs),
                  length-take n bs at_most,
                  r.bound,
                );
              })
      ]

  module _ (io : Conn S E) (source : IsSource io pending) where
    from_conn-IsRead :
        c.rbuf ≡ [] → IsRead {E = E} (pending_with pending) len c (from_conn io g len c)
    unfolding from_conn
    from_conn-IsRead e =
        let r = io.read len c.conn in
        let was = source.was_read len c.conn in
        elim (Option-cases r.0.1) [
          | inr (x, f) ↦
              rw (f, from_conn, e)
                (record { front = was.front; bound = was.bound; some_bytes = λ o. absurd cc })
          | inl f ↦
              rw (f, from_conn)
                (keep_rest-IsRead r.0.0 r.1
                  (record {
                    front = was.front;
                    bound = was.bound;
                    some_bytes = λ o. was.some_bytes f;
                  })
                  e)
        ]

    pub limited_read-IsRead : IsRead {E = E} (pending_with pending) len c (limited_read io g len c)
    unfolding limited_read
    limited_read-IsRead = elim (Bool-cases (is_empty c.rbuf)) [
      | inl e ↦ rw e (from_conn-IsRead (is_empty-nil c.rbuf e))
      | inr e ↦ rw e (from_rbuf-IsRead e)
    ]
