-- ===== src/Limiter/Packets.antt =====
-- limiter/traffic/wrapper/conn.go, the part for packet connections: packets that exceed the limit of
-- their address are dropped.
pub mod Cached
pub mod Fitting
mod Tests
use gost_x.Prelude.{
  ℕ, ◌+◌, Bool, true, false, Option, none, some, List, [], ◌∷◌, length, ltb, if◌then◌else◌,
}
use gost_x.Conns.{Arrival, packet, fails}
use gost_x.Text.{Text}
use gost_x.Assoc.{Assoc, lookup, insert}
use gost_x.Net.{Libs}
use gost_x.Loader.{second}
use gost_x.Limiter.Traffic.Table.{TrafficLimiter, input, output}
use gost_x.Limiter.Traffic.Waiting.{group_wait}

-- A limiter, or nil, in a cache of go-cache, with the time at which it expires.
abbrev pub Cached : Type 0
Cached = Option (List ℕ) × ℕ

-- packetConn and udpConn, which have the same fields and the same methods for these, without the
-- connection that they wrap. Only a udpConn may have no limiter.
pub record PacketConn : Type 0 where
  pub limiter : Option TrafficLimiter
  pub in_limits : Assoc Cached
  pub out_limits : Assoc Cached

-- WrapUDPConn, and WrapPacketConn for a limiter that is not nil.
abbrev pub wrap_udp_conn : Option TrafficLimiter → PacketConn
wrap_udp_conn l = record { limiter = l; in_limits = []; out_limits = [] }

-- Get at the time `now`.
unfoldable pub get_cached : ℕ → Text → Assoc Cached → Option (Option (List ℕ))
get_cached now addr m = elim (lookup addr m) [
  | none ↦ none
  | some (lim, expiration) ↦ if ltb expiration now then none else some lim
]

unfoldable pub get_in_limiter : Libs → ℕ → Text → PacketConn → Option (List ℕ) × PacketConn
get_in_limiter libs now addr c = elim c.limiter [
  | none ↦ (none, c)
  | some l ↦ elim (get_cached now addr c.in_limits) [
    | some lim ↦ (lim, c)
    | none ↦
        let (lim, l') = input libs addr l in
        (
          lim,
          record c { limiter = some l'; in_limits = insert addr (lim, now + second) c.in_limits },
        )
  ]
]

unfoldable pub get_out_limiter : Libs → ℕ → Text → PacketConn → Option (List ℕ) × PacketConn
get_out_limiter libs now addr c = elim c.limiter [
  | none ↦ (none, c)
  | some l ↦ elim (get_cached now addr c.out_limits) [
    | some lim ↦ (lim, c)
    | none ↦
        let (lim, l') = output libs addr l in
        (
          lim,
          record c { limiter = some l'; out_limits = insert addr (lim, now + second) c.out_limits },
        )
  ]
]

-- limiter != nil && limiter.Wait(ctx, n) < n
unfoldable pub exceeds : Option (List ℕ) → ℕ → Bool
exceeds none n = false
exceeds (some g) n = ltb (group_wait g n) n

-- The result of a write: the call of the wrapped connection, or a number of bytes or an error
-- without such a call.
pub data Written (E : Type 0) : Type 0 where
  calls : List ℕ → Text → Written E
  drops : ℕ → Written E
  refuses : E → Written E

module _ {E : Type 0} where
  -- ReadFrom, over what arrives at the connection: what it returns, and what is still to be read.
  -- `none` stands for a read that still waits.
  unfoldable pub read_from :
      Libs → List (Arrival E) → PacketConn → Option (Arrival E × List (Arrival E)) × PacketConn
  read_from libs [] c = (none, c)
  read_from libs (fails e ∷ es) c = (some (fails e, es), c)
  read_from libs (packet now bs addr ∷ es) c =
      let (lim, c') = get_in_limiter libs now addr c in
      let later = read_from libs es c' in
      if exceeds lim (length bs) then later else (some (packet now bs addr, es), c')

  -- ReadFromUDP and ReadMsgUDP of a udpConn: they ask whether the wrapped connection has these
  -- methods.
  unfoldable pub read_from_udp :
      Libs
      → Bool
      → E
      → List (Arrival E)
      → PacketConn
      → Option (Arrival E × List (Arrival E)) × PacketConn
  read_from_udp libs supported unsupported es c =
      let r = read_from libs es c in if supported then r else (some (fails unsupported, es), c)

  -- WriteTo
  unfoldable pub write_to : Libs → ℕ → List ℕ → Text → PacketConn → Written E × PacketConn
  write_to libs now bs addr c =
      let (lim, c') = get_out_limiter libs now addr c in
      (if exceeds lim (length bs) then drops (length bs) else calls bs addr, c')

  -- WriteToUDP and WriteMsgUDP of a udpConn.
  unfoldable pub write_to_udp :
      Libs → Bool → E → ℕ → List ℕ → Text → PacketConn → Written E × PacketConn
  write_to_udp libs supported unsupported now bs addr c =
      let (lim, c') = get_out_limiter libs now addr c in
      (
        if exceeds lim (length bs)
            then drops (length bs)
            else if supported
            then calls bs addr
            else refuses unsupported,
        c',
      )
