-- ===== src/Service/Serving.antt =====
-- Which connections reach the handler.
use gost_x.Prelude.{
  ℕ, ◌≡◌, refl, ap, ◌∙◌, Bool, true, false, Option, none, some, Bool-cases, inl, inr, List, [], ◌∷◌,
  ◌++◌, map,
}
use gost_x.Text.{Text}
use gost_x.Service.{
  Options, Client, Effect, runs, sleeps, records, closes, handles, closes_handler, closes_listener,
  Accepted, accepts, temporary, permanent, exec_cmds, next_delay, record_client, deal, accept,
  serve_loop, serve,
}

-- The connections that are given to the handler, with true, or closed, with false, in their order.
pub dealt : List Effect → List (Bool × Client)
dealt [] = []
dealt (handles c ∷ es) = (true, c) ∷ dealt es
dealt (closes c ∷ es) = (false, c) ∷ dealt es
dealt (runs cmd ∷ es) = dealt es
dealt (sleeps t ∷ es) = dealt es
dealt (records rec addr ∷ es) = dealt es
dealt (closes_handler ∷ es) = dealt es
dealt (closes_listener ∷ es) = dealt es

-- Those that come before an error that is not temporary, and this error.
pub arrived : {E : Type 0} → List (Accepted E) → List Client
arrived [] = []
arrived (accepts c ∷ as') = c ∷ arrived as'
arrived (temporary e ∷ as') = arrived as'
arrived (permanent e ∷ as') = []

pub first_permanent : {E : Type 0} → List (Accepted E) → Option E
first_permanent [] = none
first_permanent (accepts c ∷ as') = first_permanent as'
first_permanent (temporary e ∷ as') = first_permanent as'
first_permanent (permanent e ∷ as') = some e

pub admits : Option (Text → Bool) → Client → Bool
admits none c = true
admits (some admit) c = admit c.addr

dealt-append : (es fs : List Effect) → dealt (es ++ fs) ≡ dealt es ++ dealt fs
unfolding dealt
dealt-append [] fs = refl
dealt-append (handles c ∷ es) fs = ap (λ y. (true, c) ∷ y) (dealt-append es fs)
dealt-append (closes c ∷ es) fs = ap (λ y. (false, c) ∷ y) (dealt-append es fs)
dealt-append (runs cmd ∷ es) fs = dealt-append es fs
dealt-append (sleeps t ∷ es) fs = dealt-append es fs
dealt-append (records rec addr ∷ es) fs = dealt-append es fs
dealt-append (closes_handler ∷ es) fs = dealt-append es fs
dealt-append (closes_listener ∷ es) fs = dealt-append es fs

dealt-runs : (cmds : List Text) → dealt (map runs cmds) ≡ []
unfolding dealt
dealt-runs [] = refl
dealt-runs (cmd ∷ cmds) = dealt-runs cmds

dealt-exec_cmds : (cmds : List Text) → dealt (exec_cmds cmds) ≡ []
unfolding exec_cmds
dealt-exec_cmds cmds = dealt-runs _

dealt-record_client : (recs : List (Bool × ℕ)) (addr : Text) → dealt (record_client recs addr) ≡ []
unfolding record_client dealt
dealt-record_client [] addr = refl
dealt-record_client ((b, rec) ∷ recs) addr = elim (Bool-cases b) [
  | inl e ↦ rw (e, record_client) refl
  | inr e ↦ rw (e, record_client) (dealt-record_client recs addr)
]

dealt-deal : (a : Option (Text → Bool)) (c : Client) → dealt (deal a c) ≡ (admits a c, c) ∷ []
unfolding deal admits dealt
dealt-deal none c = refl
dealt-deal (some admit) c = elim (Bool-cases (admit c.addr)) [
  | inl e ↦ rw e refl
  | inr e ↦ rw e refl
]

dealt-accept : (o : Options) (c : Client) → dealt (accept o c) ≡ (admits o.admission c, c) ∷ []
unfolding accept
dealt-accept o c =
    dealt-append (record_client o.recorders c.addr) (deal o.admission c)
    ∙ ap (λ y. y ++ dealt (deal o.admission c)) (dealt-record_client o.recorders c.addr)
    ∙ dealt-deal o.admission c

abbrev deals : Options → List Client → List (Bool × Client)
deals o cs = map (λ c. (admits o.admission c, c)) cs

serve_loop-deals :
    {E : Type 0} (o : Options) (t : ℕ) (as' : List (Accepted E))
    → (dealt (serve_loop o t as').0 ≡ deals o (arrived as'))
      × ((serve_loop o t as').1 ≡ first_permanent as')
unfolding serve_loop arrived first_permanent dealt
serve_loop-deals o t [] = (refl, refl)
serve_loop-deals o t (temporary e ∷ as') = serve_loop-deals o (next_delay t) as'
serve_loop-deals o t (permanent e ∷ as') = (refl, refl)
serve_loop-deals o t (accepts c ∷ as') =
    let rest = serve_loop-deals o 0 as' in
    (
      dealt-append (accept o c) (serve_loop o 0 as').0
          ∙ ap (λ y. y ++ dealt (serve_loop o 0 as').0) (dealt-accept o c)
          ∙ ap (λ y. (admits o.admission c, c) ∷ y) rest.0,
      rest.1,
    )

pub serve-arrived :
    {E : Type 0} (o : Options) (as' : List (Accepted E))
    → (dealt (serve o as').0 ≡ map (λ c. (admits o.admission c, c)) (arrived as'))
      × ((serve o as').1 ≡ first_permanent as')
unfolding serve
serve-arrived o as' =
    let rest = serve_loop-deals o 0 as' in
    (
      dealt-append (exec_cmds o.post_up) (serve_loop o 0 as').0
          ∙ ap (λ y. y ++ dealt (serve_loop o 0 as').0) (dealt-exec_cmds o.post_up)
          ∙ rest.0,
      rest.1,
    )
