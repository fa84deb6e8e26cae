-- ===== src/UdpRelay/Returned.antt =====
-- internal/net/udp/relay.go: which error Run returns, and what is sent until then and later.
use gost_x.Prelude.{
  ℕ, ◌≡◌, refl, ◌∙◌, ap, Bool, true, false, Option, none, some, List, [], ◌∷◌, ◌++◌, Bool-cases,
  inl, inr, if◌then◌else◌,
}
use gost_x.Text.{Text}
use gost_x.Conns.{Arrival, packet, fails}
use gost_x.UdpRelay.{
  State, bypassed, error_of, after_round, relay_one, step_flow, step, run, start, result,
}
use gost_x.UdpRelay.Interleaved.{avoids, avoids-bypassed, wanted, IsRelaying, run-steps}

module _ {E : Type 0} (bypass : Option (Text → Bool)) where
  -- The error that ends a loop which reads the arrival: that of ReadFrom, or that of WriteTo, which is not
  -- called for a bypassed address. Else the rounds that follow.
  abbrev pub or_ends : Arrival E → Option E → Option E → Option E
  or_ends (fails e) failure later = some e
  or_ends (packet now bs addr) none later = later
  or_ends (packet now bs addr) (some e) later = if avoids bypass addr then later else some e

  -- The first error that ends one of the loops, for what is still to arrive at the two connections.
  abbrev pub first_error : List (Bool × Option E) → List (Arrival E) → List (Arrival E) → Option E
  first_error [] as' bs = none
  first_error ((true, w) ∷ schedule) [] bs = first_error schedule [] bs
  first_error ((true, w) ∷ schedule) (a ∷ as') bs = or_ends a w (first_error schedule as' bs)
  first_error ((false, w) ∷ schedule) as' [] = first_error schedule as' []
  first_error ((false, w) ∷ schedule) as' (b ∷ bs) = or_ends b w (first_error schedule as' bs)

  -- An error in the channel is the one that is received, whatever comes behind it.
  result-run_reported :
      (schedule : List (Bool × Option E)) (s : State E) (e : E) (es : List E)
      → s.errc ≡ e ∷ es
      → result (run bypass schedule s) ≡ some e
  unfolding run result step
  result-run_reported [] s e es q = rw q refl
  result-run_reported ((true, w) ∷ schedule) s e es q =
      result-run_reported schedule (step bypass true w s) e (es ++ (step_flow bypass w s.first).1)
        (ap (λ zs. zs ++ (step_flow bypass w s.first).1) q)
  result-run_reported ((false, w) ∷ schedule) s e es q =
      result-run_reported schedule (step bypass false w s) e (es ++ (step_flow bypass w s.second).1)
        (ap (λ zs. zs ++ (step_flow bypass w s.second).1) q)

  -- Both loops are still running, and nothing was reported.
  abbrev open_state :
      List (Arrival E) → List (Arrival E) → List (List ℕ × Text) → List (List ℕ × Text) → State E
  open_state as' bs xs ys = record {
    first = record { pending = as'; sent = xs; ended = false };
    second = record { pending = bs; sent = ys; ended = false };
    errc = [];
  }

  result-run_open :
      (schedule : List (Bool × Option E)) (as' bs : List (Arrival E)) (xs ys : List (List ℕ × Text))
      → result (run bypass schedule (open_state as' bs xs ys)) ≡ first_error schedule as' bs
  unfolding run result step step_flow relay_one after_round error_of
  result-run_open [] as' bs xs ys = refl
  result-run_open ((true, w) ∷ schedule) [] bs xs ys = result-run_open schedule [] bs xs ys
  result-run_open ((true, w) ∷ schedule) (fails e ∷ as') bs xs ys =
      result-run_reported schedule _ e [] refl
  result-run_open ((true, none) ∷ schedule) (packet now b addr ∷ as') bs xs ys =
      elim (Bool-cases (bypassed bypass addr)) [
        | inl q ↦ rw q (result-run_open schedule as' bs xs ys)
        | inr q ↦ rw q (result-run_open schedule as' bs (xs ++ (b, addr) ∷ []) ys)
      ]
  result-run_open ((true, some e) ∷ schedule) (packet now b addr ∷ as') bs xs ys =
      elim (Bool-cases (bypassed bypass addr)) [
        | inl q ↦ rw (q, avoids-bypassed bypass addr ∙ q) (result-run_open schedule as' bs xs ys)
        | inr q ↦ rw (q, avoids-bypassed bypass addr ∙ q) (result-run_reported schedule _ e [] refl)
      ]
  result-run_open ((false, w) ∷ schedule) as' [] xs ys = result-run_open schedule as' [] xs ys
  result-run_open ((false, w) ∷ schedule) as' (fails e ∷ bs) xs ys =
      result-run_reported schedule _ e [] refl
  result-run_open ((false, none) ∷ schedule) as' (packet now b addr ∷ bs) xs ys =
      elim (Bool-cases (bypassed bypass addr)) [
        | inl q ↦ rw q (result-run_open schedule as' bs xs ys)
        | inr q ↦ rw q (result-run_open schedule as' bs xs (ys ++ (b, addr) ∷ []))
      ]
  result-run_open ((false, some e) ∷ schedule) as' (packet now b addr ∷ bs) xs ys =
      elim (Bool-cases (bypassed bypass addr)) [
        | inl q ↦ rw (q, avoids-bypassed bypass addr ∙ q) (result-run_open schedule as' bs xs ys)
        | inr q ↦ rw (q, avoids-bypassed bypass addr ∙ q) (result-run_reported schedule _ e [] refl)
      ]

  -- However the two loops are interleaved, and whatever WriteTo returns: each has sent, in their order,
  -- the first of the packets that come before the first error of its connection and not from a bypassed
  -- address; while it runs, only those are missing that it has not read yet; and there is an error in
  -- the channel exactly if one of the loops has ended. Run returns the first error that ends a loop in
  -- this interleaving, and waits as long as there is none: an error of ReadFrom, or one of WriteTo, which
  -- counts only for a packet that is not from a bypassed address.
  pub run-IsRelaying :
      (as' bs : List (Arrival E)) (schedule : List (Bool × Option E))
      → IsRelaying bypass as' bs (run bypass schedule (start as' bs))
        × (result (run bypass schedule (start as' bs)) ≡ first_error schedule as' bs)
  unfolding start
  run-IsRelaying as' bs schedule = (
    run-steps bypass as' bs schedule (start as' bs) (record {
      first = record { left = wanted bypass as'; in_order = refl; running = λ e. refl };
      second = record { left = wanted bypass bs; in_order = refl; running = λ e. refl };
      reported = refl;
    }),
    result-run_open schedule as' bs [] [],
  )
