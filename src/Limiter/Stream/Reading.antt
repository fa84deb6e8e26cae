-- ===== src/Limiter/Stream/Reading.antt =====
-- Read keeps the bytes in their order.
use gost_x.Prelude.{
  subst, ℕ, ◌-◌, ◌<◌, ◌≡◌, refl, sym, ap, ◌∙◌, Option, none, some, Option-cases, Bool-cases, inl,
  inr, List, [], ◌++◌, All, length, ltb, is_empty,
}
use gost_x.Text.{Text}
use gost_x.Net.{Libs}
use gost_x.Loader.{second}
use gost_x.Int64.{sign_bit}
use gost_x.Limiter.Traffic.Table.{TrafficLimiter}
use gost_x.Limiter.Traffic.Waiting.{IsRate, group_wait}
use gost_x.Limiter.Traffic.Handed.{IsRatedGroup}
use gost_x.Limiter.Stream.Ready.{IsReady, get_in_limiter-IsReady}
use gost_x.Conns.{Conn, IsRead, IsSource}
use gost_x.Limiter.Stream.{
  ServerConn, keep_rest, from_rbuf, from_conn, limited_read, read_with, get_in_limiter, read,
}
use gost_x.Limiter.Stream.Chunks.{pending_with, limited_read-IsRead}

-- Reading leaves the limiters alone.
abbrev SameLimiters : {S : Type 0} → ServerConn S → ServerConn S → Type 0
SameLimiters c d = (d.limiter_in ≡ c.limiter_in) × (d.limiter_out ≡ c.limiter_out)

keep_rest-same :
    {S : Type 0} (E : Type 0) (g bs : List ℕ) (c : ServerConn S)
    → SameLimiters c (keep_rest {E = E} g bs c).1
unfolding keep_rest
keep_rest-same E g bs c = elim (Bool-cases (ltb (group_wait g (length bs)) (length bs))) [
  | inl e ↦ rw e (refl, refl)
  | inr e ↦ rw e (refl, refl)
]

from_conn-same :
    {S : Type 0} {E : Type 0} (io : Conn S E) (g : List ℕ) (len : ℕ) (c : ServerConn S)
    → SameLimiters c (from_conn io g len c).1
unfolding from_conn
from_conn-same io g len c = elim (Option-cases (io.read len c.conn).0.1) [
  | inr (x, e) ↦ rw (e, from_conn) (refl, refl)
  | inl e ↦
      rw (e, from_conn)
        (keep_rest-same _ g (io.read len c.conn).0.0 (record c { conn = (io.read len c.conn).1 }))
]

read_with-same :
    {S E : Type 0} (io : Conn S E) (lim : Option (List ℕ)) (len : ℕ) (c : ServerConn S)
    → SameLimiters c (read_with io lim len c).1
unfolding read_with limited_read from_rbuf
read_with-same io none len c = (refl, refl)
read_with-same io (some g) len c = elim (Bool-cases (is_empty c.rbuf)) [
  | inl e ↦ rw (e, limited_read) (from_conn-same io g len c)
  | inr e ↦ rw (e, limited_read) (refl, refl)
]

-- The group that Read uses.
abbrev pub group_in :
    {S : Type 0} → Libs → ℕ → Text → ServerConn S × TrafficLimiter → Option (List ℕ)
group_in libs now addr w = (get_in_limiter libs now addr w).0

get_in_limiter-same :
    {S : Type 0} (libs : Libs) (now : ℕ) (addr : Text) (w : ServerConn S × TrafficLimiter)
    → ((get_in_limiter libs now addr w).1.0.rbuf ≡ w.0.rbuf)
      × ((get_in_limiter libs now addr w).1.0.conn ≡ w.0.conn)
unfolding get_in_limiter
get_in_limiter-same libs now addr w = elim (Bool-cases (ltb second (now - w.0.exp_in))) [
  | inl e ↦ rw e (refl, refl)
  | inr e ↦ rw e (refl, refl)
]

module _ {S E : Type 0} (pending : S → List ℕ) (io : Conn S E) (source : IsSource io pending) where
  read_with-IsRead :
      (lim : Option (List ℕ)) (len : ℕ) (c : ServerConn S)
      → ((g : List ℕ) → lim ≡ some g → All IsRate g)
      → (lim ≡ none → c.rbuf ≡ [])
      → len < sign_bit
      → IsRead (pending_with pending) len c (read_with io lim len c)
  unfolding read_with
  read_with-IsRead none len c h k q =
      let was = source.was_read len c.conn in
      record { front = rw (k refl) was.front; bound = was.bound; some_bytes = was.some_bytes }
  read_with-IsRead (some g) len c h k q = limited_read-IsRead pending g (h g refl) len q c io source

  -- Read of the wrapped connection keeps the promises of Read of the connection: the bytes are the
  -- front of what was still to come, those kept from an earlier read before those of the connection,
  -- no byte is lost or doubled, they fit the buffer, and there is at least one if the buffer is not
  -- empty and there is no error. This holds if all limiters that are kept have positive rates, which
  -- is so again afterwards, and if, when there is no limiter, no bytes are kept.
  pub read-IsRead :
      (libs : Libs) (now : ℕ) (addr : Text) (len : ℕ) (w : ServerConn S × TrafficLimiter)
      → IsReady w
      → (group_in libs now addr w ≡ none → w.0.rbuf ≡ [])
      → len < sign_bit
      → IsRead (λ v. pending_with pending v.0) len w (read libs io now addr len w)
        × IsReady (read libs io now addr len w).1
  unfolding read
  read-IsRead libs now addr len w h k q =
      let (lim, (c, l)) = get_in_limiter libs now addr w in
      let ready = get_in_limiter-IsReady libs now addr w h in
      let same = get_in_limiter-same libs now addr w in
      let r = read_with-IsRead lim len c ready.0 (λ e. same.0 ∙ k e) q in
      let kept = read_with-same io lim len c in
      (
        record {
          front =
              ap (λ bs. bs ++ pending w.0.conn) (sym same.0)
              ∙ ap (λ s. c.rbuf ++ pending s) (sym same.1)
              ∙ r.front;
          bound = r.bound;
          some_bytes = r.some_bytes;
        },
        record {
          in_rates = subst IsRatedGroup (sym kept.0) ready.1.in_rates;
          out_rates = subst IsRatedGroup (sym kept.1) ready.1.out_rates;
          table = ready.1.table;
        },
      )
