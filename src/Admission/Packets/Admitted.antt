-- ===== src/Admission/Packets/Admitted.antt =====
-- What a packet connection with an admission returns of what arrives.
use gost_x.Prelude.{
  ◌≡◌, refl, ap, Bool, true, false, Bool-cases, inl, inr, Option, none, some, List, [], ◌∷◌, ◌++◌,
  All,
}
use gost_x.Text.{Text}
use gost_x.Conns.{Arrival, packet, fails}
use gost_x.Admission.Packets.{refuses, read_from}

module _ {E : Type 0} (admission : Option (Text → Bool)) where
  pub refused : Arrival E → Bool
  refused (packet now bs addr) = refuses admission addr
  refused (fails e) = false

  -- The arrivals from the one that is returned on.
  pub from_first : Option (Arrival E × List (Arrival E)) → List (Arrival E)
  from_first none = []
  from_first (some (a, rest)) = a ∷ rest

  -- The packets in front, which are dropped, and the first that is not refused, if there is one.
  pub record IsFirst (es : List (Arrival E)) (r : Option (Arrival E × List (Arrival E)))
      : Type 0 where
    pub dropped : List (Arrival E)
    pub all_refused : All (λ a. refused a ≡ true) dropped
    pub whole : es ≡ dropped ++ from_first r
    pub admitted :
        (a : Arrival E) (rest : List (Arrival E)) → r ≡ some (a, rest) → refused a ≡ false

  returned :
      (a : Arrival E) (es : List (Arrival E))
      → refused a ≡ false
      → (b : Arrival E) (rest : List (Arrival E))
      → ◌≡◌ {A = Option (Arrival E × List (Arrival E))} (some (a, es)) (some (b, rest))
      → refused b ≡ false
  returned a es e b rest q = cc

  -- ReadFrom drops the packets whose addresses the admission refuses, and returns the first packet
  -- that it admits, or the first error, whichever comes first; what arrives later is untouched. It
  -- waits exactly if all that arrives is refused.
  pub read_from-IsFirst : (es : List (Arrival E)) → IsFirst es (read_from admission es)
  unfolding read_from refused from_first
  read_from-IsFirst [] = record {
    dropped = [];
    all_refused = tt;
    whole = refl;
    admitted = λ a rest q. absurd cc;
  }
  read_from-IsFirst (fails e ∷ es) = record {
    dropped = [];
    all_refused = tt;
    whole = refl;
    admitted = λ a rest q. cc;
  }
  read_from-IsFirst (packet now bs addr ∷ es) =
      let later = read_from-IsFirst es in
      elim (Bool-cases (refuses admission addr)) [
        | inl e ↦ rw e (record {
          dropped = packet now bs addr ∷ later.dropped;
          all_refused = (e, later.all_refused);
          whole = ap (λ y. packet now bs addr ∷ y) later.whole;
          admitted = later.admitted;
        })
        | inr e ↦ rw e (record {
          dropped = [];
          all_refused = tt;
          whole = refl;
          admitted = returned (packet now bs addr) es e;
        })
      ]
