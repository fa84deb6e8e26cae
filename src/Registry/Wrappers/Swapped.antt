-- ===== src/Registry/Wrappers/Swapped.antt =====
-- Wrappers over a registry whose objects are exchanged.
use gost_x.Prelude.{
  ◌≡◌, refl, ◌∙◌, ap, Bool, true, false, Option, none, some, List, [], ◌∷◌, All, is_empty,
}
use gost_x.Text.{Text, eq_text}
use gost_x.Text.Laws.{eq_text_refl}
use gost_x.Net.{Libs}
use gost_x.Registry.{get, Call, Use, registers, unregisters, calls}
use gost_x.Registry.Names.{renamed, renamed_all, lookup-calls}
use gost_x.Admission.{Admission, admit}
use gost_x.Bypass.{Bypass, contains}
use gost_x.Auth.{Authenticator, authenticate}
use gost_x.Registry.Wrappers.{wrapped_admit, wrapped_contains, wrapped_authenticate}

-- Admissions, bypasses and authenticators have a method Close.
abbrev pub closes : {T : Type 0} → T → Bool
closes v = true

module _ {T : Type 0} where
  abbrev pub called : Call T → Text
  called (registers k v) = k
  called (unregisters k) = k

  -- Calls for other names.
  abbrev pub Spares : Text → List (Call T) → Type 0
  Spares name = All (λ c. eq_text (called c) name ≡ false)

  renamed_all-Spares :
      (name : Text) (cs : List (Call T)) (f : Text → Option T)
      → Spares name cs
      → renamed_all cs f name ≡ f name
  renamed_all-Spares name [] f h = refl
  renamed_all-Spares name (registers k v ∷ cs) f h =
      renamed_all-Spares name cs (renamed (registers k v) f) h.1 ∙ rw h.0 refl
  renamed_all-Spares name (unregisters k ∷ cs) f h =
      renamed_all-Spares name cs (renamed (unregisters k) f) h.1 ∙ rw h.0 refl

  -- The registry after an exchange, and after a removal.
  abbrev pub exchanged : Text → T → List (Call T) → Use T → Use T
  exchanged name v cs = calls closes (unregisters name ∷ registers name v ∷ cs)

  abbrev pub removed : Text → List (Call T) → Use T → Use T
  removed name cs = calls closes (unregisters name ∷ cs)

  get-exchanged :
      (name : Text) (v : T) (cs : List (Call T)) (u : Use T)
      → is_empty name ≡ false
      → Spares name cs
      → get name (exchanged name v cs u).entries ≡ some v
  unfolding get
  get-exchanged name v cs u e h =
      rw (e, lookup-calls closes (unregisters name ∷ registers name v ∷ cs) u name)
        (renamed_all-Spares name cs _ h ∙ rw (eq_text_refl name, e) refl)

  get-removed :
      (name : Text) (cs : List (Call T)) (u : Use T)
      → is_empty name ≡ false
      → Spares name cs
      → get name (removed name cs u).entries ≡ none
  unfolding get
  get-removed name cs u e h =
      rw (e, lookup-calls closes (unregisters name ∷ cs) u name)
        (renamed_all-Spares name cs _ h ∙ rw (eq_text_refl name) refl)

-- Wrappers that were taken at any time: when the object of their name has been exchanged, by Unregister
-- and Register, they answer as the new one, whatever is registered and unregistered under other names
-- meanwhile; when it has been removed, an admission lets nobody in, a bypass contains nothing, and an
-- authenticator lets everybody in.
pub wrapped-exchanged :
    (libs : Libs) (name addr user password : Text) (p : Admission) (ps : List (Call Admission))
    (us : Use Admission) (b : Bypass) (bs : List (Call Bypass)) (ub : Use Bypass)
    (a : Authenticator) (as' : List (Call Authenticator)) (ua : Use Authenticator)
    → is_empty name ≡ false
    → Spares name ps
    → Spares name bs
    → Spares name as'
    → (wrapped_admit libs (exchanged name p ps us).entries name addr ≡ admit libs (some p) addr)
      × (wrapped_admit libs (removed name ps us).entries name addr ≡ false)
      × (wrapped_contains libs (exchanged name b bs ub).entries name addr
          ≡ contains libs (some b) addr)
      × (wrapped_contains libs (removed name bs ub).entries name addr ≡ false)
      × (wrapped_authenticate (exchanged name a as' ua).entries name user password
          ≡ authenticate (some a) user password)
      × (wrapped_authenticate (removed name as' ua).entries name user password ≡ true)
unfolding wrapped_admit wrapped_contains wrapped_authenticate
wrapped-exchanged libs name addr user password p ps us b bs ub a as' ua e hp hb ha = (
  ap admits (get-exchanged name p ps us e hp),
  ap admits (get-removed name ps us e hp),
  ap holds (get-exchanged name b bs ub e hb),
  ap holds (get-removed name bs ub e hb),
  ap knows (get-exchanged name a as' ua e ha),
  ap knows (get-removed name as' ua e ha),
)
  where
    admits : Option Admission → Bool
    admits none = false
    admits (some v) = admit libs (some v) addr

    holds : Option Bypass → Bool
    holds none = false
    holds (some v) = contains libs (some v) addr

    knows : Option Authenticator → Bool
    knows none = true
    knows (some v) = authenticate (some v) user password
