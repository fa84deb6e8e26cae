-- ===== src/Admission/Listener.antt =====
-- admission/wrapper/listener.go: the listener that closes the connections of clients that are not
-- admitted.
use gost_x.Prelude.{
  ◌≡◌, refl, ap, true, false, Bool-cases, Option, inl, inr, List, [], ◌∷◌, ◌++◌, All, if◌then◌else◌,
}
use gost_x.Text.{Text}
use gost_x.Net.{Libs}
use gost_x.Admission.{Admission, admit}

-- What Accept of the inner listener answers next: an error, or a connection from an address.
pub data Incoming : Type 0 where
  fails : Incoming
  from : Text → Incoming

pub data Accepted : Type 0 where
  returned : Text → Accepted
  failed waiting : Accepted

-- What Accept answers, the connections that it closes, and what is left to come.
pub record Round : Type 0 where
  pub answer : Accepted
  pub closed : List Text
  pub left : List Incoming

-- Accept over what comes in, from one connection to the next; it waits when nothing more comes.
unfoldable pub accept : Libs → Option Admission → List Incoming → Round
accept libs p [] = record { answer = waiting; closed = []; left = [] }
accept libs p (fails ∷ rest) = record { answer = failed; closed = []; left = rest }
accept libs p (from addr ∷ rest) =
    let r = accept libs p rest in
    if admit libs p addr
    then record { answer = returned addr; closed = []; left = rest }
    else record r { closed = addr ∷ r.closed }

-- Everything that came in, as a round tells it.
abbrev pub arrived : List Text → List Incoming → List Incoming
arrived [] rest = rest
arrived (addr ∷ addrs) rest = from addr ∷ arrived addrs rest

abbrev pub answered : Accepted → List Incoming
answered (returned addr) = from addr ∷ []
answered failed = fails ∷ []
answered waiting = []

-- One call of Accept takes what comes in up to and with its answer, and leaves the rest: it has closed
-- all connections before its answer, none of them from an admitted client, and if it returns a
-- connection, the client of that is admitted.
pub accept-admit :
    (libs : Libs) (p : Option Admission) (coming : List Incoming)
    → let r = accept libs p coming in
      (arrived r.closed (answered r.answer ++ r.left) ≡ coming)
      × All (λ addr. admit libs p addr ≡ false) r.closed
      × ((addr : Text) → r.answer ≡ returned addr → admit libs p addr ≡ true)
unfolding accept
accept-admit libs p [] = (refl, tt, λ addr e. cc e)
accept-admit libs p (fails ∷ rest) = (refl, tt, λ addr e. cc e)
accept-admit libs p (from addr ∷ rest) =
    let later = accept-admit libs p rest in
    elim (Bool-cases (admit libs p addr)) [
      | inl e ↦ rw e (refl, tt, λ a q. cc (e, q))
      | inr e ↦ rw e (ap (λ l. from addr ∷ l) later.0, (e, later.1), later.2)
    ]
