-- ===== src/Admission/Packets.antt =====
-- admission/wrapper/conn.go: connections that let through only what comes from an admitted address.
pub mod Admitted
mod Tests
use gost_x.Prelude.{
  ℕ, Bool, true, false, not, ◌&&◌, Option, none, some, List, [], ◌∷◌, if◌then◌else◌,
}
use gost_x.Text.{Text}
use gost_x.Conns.{Conn, Arrival, packet, fails}

-- c.admission != nil && !c.admission.Admit(addr), for the method Admit of an admission.
unfoldable pub refuses : Option (Text → Bool) → Text → Bool
refuses none addr = false
refuses (some admit) addr = not (admit addr)

-- (*serverConn).Read for the remote address `addr`; `eof` is io.EOF.
unfoldable pub read :
    {S E : Type 0} → Conn S E → E → Option (Text → Bool) → Text → ℕ → S → (List ℕ × Option E) × S
read io eof admission addr len s =
    let r = io.read len s in if refuses admission addr then (([], some eof), s) else r

-- ReadFrom of packetConn and of udpConn: what it returns of what arrives, and what is still to be read;
-- `none` for a read that still waits.
unfoldable pub read_from :
    {E : Type 0} → Option (Text → Bool) → List (Arrival E) → Option (Arrival E × List (Arrival E))
read_from admission [] = none
read_from admission (fails e ∷ es) = some (fails e, es)
read_from admission (packet now bs addr ∷ es) =
    let later = read_from admission es in
    if refuses admission addr then later else some (packet now bs addr, es)

-- ReadFromUDP and ReadMsgUDP of udpConn, which ask whether the wrapped connection has these methods.
unfoldable pub read_from_udp :
    {E : Type 0}
    → Bool
    → E
    → Option (Text → Bool)
    → List (Arrival E)
    → Option (Arrival E × List (Arrival E))
read_from_udp supported unsupported admission es =
    let r = read_from admission es in if supported then r else some (fails unsupported, es)
