-- ===== src/Conns.antt =====
-- net.Conn and the functions of package io, as the wrappers of connections use them.
use gost_x.Prelude.{ℕ, ◌≤◌, ◌<◌, ◌≡◌, Option, none, List, ◌++◌, length, take}
use gost_x.Text.{Text}

-- A connection with states S and errors E: Read into a buffer of a length gives the bytes and the
-- error, Write the number of bytes and the error.
pub record Conn (S E : Type 0) : Type 0 where
  pub read : ℕ → S → (List ℕ × Option E) × S
  pub write : List ℕ → S → (ℕ × Option E) × S

-- What the result of a Read into a buffer of length `len` says, where `pending` is what is still to
-- come: the bytes are the front of it, they fit, and there are some if there is no error.
pub record IsRead {S E : Type 0} (pending : S → List ℕ) (len : ℕ) (s : S)
    (r : (List ℕ × Option E) × S) : Type 0 where
  pub front : pending s ≡ r.0.0 ++ pending r.1
  pub bound : length r.0.0 ≤ len
  pub some_bytes : r.0.1 ≡ none → 0 < len → 0 < length r.0.0

-- A connection whose Read does what io.Reader asks for.
pub record IsSource {S E : Type 0} (io : Conn S E) (pending : S → List ℕ) : Type 0 where
  pub was_read : (len : ℕ) (s : S) → IsRead pending len s (io.read len s)

-- What the result of a Write of `b` in the state `s` says of the bytes that are sent.
pub record IsWritten {S E : Type 0} (sent : S → List ℕ) (b : List ℕ) (s : S)
    (r : (ℕ × Option E) × S) : Type 0 where
  pub front : sent r.1 ≡ sent s ++ take r.0.0 b
  pub bound : r.0.0 ≤ length b
  pub whole : r.0.1 ≡ none → r.0.0 ≡ length b

-- A connection whose Write does what io.Writer asks for.
pub record IsSink {S E : Type 0} (io : Conn S E) (sent : S → List ℕ) : Type 0 where
  pub written : (b : List ℕ) (s : S) → IsWritten sent b s (io.write b s)

-- What a net.PacketConn gives to ReadFrom: a packet, at a time and from an address, or an error.
pub data Arrival (E : Type 0) : Type 0 where
  packet : ℕ → List ℕ → Text → Arrival E
  fails : E → Arrival E
