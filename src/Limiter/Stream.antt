-- ===== src/Limiter/Stream.antt =====
-- limiter/traffic/wrapper/conn.go and limiter/traffic/wrapper/listener.go, the part for stream
-- connections: a connection that reads and writes only as much at a time as its limiters let pass.
pub mod Ready
pub mod Chunks
pub mod Reading
pub mod Writing
mod Tests
use gost_x.Prelude.{
  ℕ, zero, suc, ◌+◌, ◌-◌, Bool, true, false, not, Option, none, some, List, [], ◌∷◌, ◌++◌, length,
  ◌⊎◌, inl, inr, take, drop, ltb, is_empty, if◌then◌else◌,
}
use gost_x.Conns.{Conn}
use gost_x.Text.{Text}
use gost_x.Net.{Libs}
use gost_x.Loader.{second}
use gost_x.Limiter.Traffic.Table.{TrafficLimiter, input, output}
use gost_x.Limiter.Traffic.Waiting.{group_wait}

-- serverConn, with a limiter that is a group, as the rates of the group.
pub record ServerConn (S : Type 0) : Type 0 where
  pub conn : S
  pub rbuf : List ℕ
  pub limiter_in : Option (List ℕ)
  pub exp_in : ℕ
  pub limiter_out : Option (List ℕ)
  pub exp_out : ℕ

module _ {S : Type 0} where
  -- WrapConn, for a limiter that is not nil.
  abbrev pub wrap_conn : S → ServerConn S
  wrap_conn s = record {
    conn = s;
    rbuf = [];
    limiter_in = none;
    exp_in = 0;
    limiter_out = none;
    exp_out = 0;
  }

  -- getInLimiter and getOutLimiter at the time `now`, in nanoseconds: a limiter is kept for a second.
  unfoldable pub get_in_limiter :
      Libs
      → ℕ
      → Text
      → ServerConn S × TrafficLimiter
      → Option (List ℕ) × (ServerConn S × TrafficLimiter)
  get_in_limiter libs now addr (c, l) =
      let (lim, l') = input libs addr l in
      if ltb second (now - c.exp_in)
      then (lim, (record c { limiter_in = lim; exp_in = now }, l'))
      else (c.limiter_in, (c, l))

  unfoldable pub get_out_limiter :
      Libs
      → ℕ
      → Text
      → ServerConn S × TrafficLimiter
      → Option (List ℕ) × (ServerConn S × TrafficLimiter)
  get_out_limiter libs now addr (c, l) =
      let (lim, l') = output libs addr l in
      if ltb second (now - c.exp_out)
      then (lim, (record c { limiter_out = lim; exp_out = now }, l'))
      else (c.limiter_out, (c, l))

  -- The part of Read behind a read of the connection without an error.
  unfoldable pub keep_rest :
      {E : Type 0} → List ℕ → List ℕ → ServerConn S → (List ℕ × Option E) × ServerConn S
  keep_rest g bs c =
      let n = group_wait g (length bs) in
      if ltb n (length bs)
      then ((take n bs, none), record c { rbuf = c.rbuf ++ drop n bs })
      else ((take n bs, none), c)

  -- The branch of Read for bytes that are kept from an earlier read.
  unfoldable pub from_rbuf :
      {E : Type 0} → List ℕ → ℕ → ServerConn S → (List ℕ × Option E) × ServerConn S
  from_rbuf g len c =
      let burst = if ltb (length c.rbuf) len then length c.rbuf else len in
      let lim = group_wait g burst in ((take lim c.rbuf, none), record c { rbuf = drop lim c.rbuf })

  unfoldable pub from_conn :
      {E : Type 0} → Conn S E → List ℕ → ℕ → ServerConn S → (List ℕ × Option E) × ServerConn S
  from_conn io g len c =
      let ((bs, err), s) = io.read len c.conn in
      elim err [
        | some e ↦ ((bs, some e), record c { conn = s })
        | none ↦ keep_rest g bs (record c { conn = s })
      ]

  -- Read with the limiter `g`.
  unfoldable pub limited_read :
      {E : Type 0} → Conn S E → List ℕ → ℕ → ServerConn S → (List ℕ × Option E) × ServerConn S
  limited_read io g len c = if is_empty c.rbuf then from_conn io g len c else from_rbuf g len c

  -- Read, without the limiter if it is nil.
  unfoldable pub read_with :
      {E : Type 0}
      → Conn S E
      → Option (List ℕ)
      → ℕ
      → ServerConn S
      → (List ℕ × Option E) × ServerConn S
  read_with io none len c = let (r, s) = io.read len c.conn in (r, record c { conn = s })
  read_with io (some g) len c = limited_read io g len c

  -- (*serverConn).Read
  unfoldable pub read :
      {E : Type 0}
      → Libs
      → Conn S E
      → ℕ
      → Text
      → ℕ
      → ServerConn S × TrafficLimiter
      → (List ℕ × Option E) × (ServerConn S × TrafficLimiter)
  read libs io now addr len w =
      let (lim, (c, l)) = get_in_limiter libs now addr w in
      let (r, c') = read_with io lim len c in (r, (c', l))

  -- The loop of Write, `n` bytes after its start, with at most so many rounds; `none` if these are
  -- not enough.
  unfoldable pub write_loop :
      {E : Type 0} → ℕ → Conn S E → List ℕ → List ℕ → ℕ → S → Option ((ℕ × Option E) × S)
  write_loop zero io g b n s = none
  write_loop (suc k) io g [] n s = some ((n, none), s)
  write_loop (suc k) io g (x ∷ b) n s =
      let ((nn, err), s') = io.write (take (group_wait g (length (x ∷ b))) (x ∷ b)) s in
      elim err [
        | some e ↦ some ((n + nn, some e), s')
        | none ↦ write_loop k io g (drop nn (x ∷ b)) (n + nn) s'
      ]

  unfoldable pub write_with :
      {E : Type 0} → Conn S E → Option (List ℕ) → List ℕ → S → Option ((ℕ × Option E) × S)
  write_with io none b s = some (io.write b s)
  write_with io (some g) b s = write_loop (suc (length b)) io g b 0 s

  -- (*serverConn).Write
  unfoldable pub write :
      {E : Type 0}
      → Libs
      → Conn S E
      → ℕ
      → Text
      → List ℕ
      → ServerConn S × TrafficLimiter
      → Option ((ℕ × Option E) × (ServerConn S × TrafficLimiter))
  write libs io now addr b w =
      let (lim, (c, l)) = get_out_limiter libs now addr w in
      elim (write_with io lim b c.conn) [
        | none ↦ none
        | some (r, s) ↦ some (r, (record c { conn = s }, l))
      ]

-- (*listener).Accept of a listener that WrapListener made with a limiter.
unfoldable pub accept : {S E : Type 0} → E ⊎ S → E ⊎ ServerConn S
accept (inl e) = inl e
accept (inr s) = inr (wrap_conn s)
