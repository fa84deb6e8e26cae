-- ===== src/UdpRelay/Interleaved.antt =====
-- What is sent in any interleaving of the two loops.
use gost_x.Prelude.{
  ℕ, ◌≡◌, refl, sym, ◌∙◌, ap, Bool, true, false, not, ◌||◌, ◌&&◌, subst, ◌⊎◌, Bool-cases, inl, inr,
  Option, none, some, List, [], ◌∷◌, ◌++◌, append_assoc, is_empty, arith, if◌then◌else◌,
}
use gost_x.Text.{Text}
use gost_x.Conns.{Arrival, packet, fails}
use gost_x.UdpRelay.{
  Packet, Flow, State, bypassed, Round, sends, skips, ends, error_of, after_round, relay_one,
  step_flow, step, run,
}

is_empty-append : {A : Type 0} (xs ys : List A) → is_empty (xs ++ ys) ≡ (is_empty xs && is_empty ys)
is_empty-append [] ys = refl
is_empty-append (x ∷ xs) ys = refl

List-cases : {A : Type 0} (xs : List A) → (xs ≡ []) ⊎ ((x : A) × (ys : List A) × (xs ≡ x ∷ ys))
List-cases [] = inl refl
List-cases (x ∷ xs) = inr (x, xs, refl)

-- There is a bypass that contains the address.
abbrev pub avoids : Option (Text → Bool) → Text → Bool
avoids none addr = false
avoids (some contains) addr = contains addr

pub avoids-bypassed :
    (bypass : Option (Text → Bool)) (addr : Text) → avoids bypass addr ≡ bypassed bypass addr
unfolding bypassed
avoids-bypassed none addr = refl
avoids-bypassed (some contains) addr = refl

module _ {E : Type 0} (bypass : Option (Text → Bool)) where
  -- The packets that are to be sent: those before the first error, without the bypassed ones.
  unfoldable pub wanted : List (Arrival E) → List Packet
  wanted [] = []
  wanted (fails e ∷ as') = []
  wanted (packet now bs addr ∷ as') =
      let rest = wanted as' in if avoids bypass addr then rest else (bs, addr) ∷ rest

  -- A direction at which `all` is to arrive: what was sent, and what is left, are the packets that are
  -- to be sent; as long as the loop runs, what is left is still to be read.
  pub record IsFlowing (all : List (Arrival E)) (f : Flow E) : Type 0 where
    pub left : List Packet
    pub in_order : wanted all ≡ f.sent ++ left
    pub running : f.ended ≡ false → left ≡ wanted f.pending

  wanted-bypassed :
      (now : ℕ) (bs : List ℕ) (addr : Text) (rest : List (Arrival E))
      → bypassed bypass addr ≡ true
      → wanted (packet now bs addr ∷ rest) ≡ wanted rest
  unfolding wanted
  wanted-bypassed now bs addr rest e = rw (avoids-bypassed bypass addr ∙ e) refl

  wanted-kept :
      (now : ℕ) (bs : List ℕ) (addr : Text) (rest : List (Arrival E))
      → bypassed bypass addr ≡ false
      → wanted (packet now bs addr ∷ rest) ≡ (bs, addr) ∷ wanted rest
  unfolding wanted
  wanted-kept now bs addr rest e = rw (avoids-bypassed bypass addr ∙ e) refl

  after_round-IsFlowing :
      (all : List (Arrival E)) (f : Flow E) (a : Arrival E) (rest : List (Arrival E)) (w : Option E)
      → wanted all ≡ f.sent ++ wanted (a ∷ rest)
      → IsFlowing all (after_round rest f (relay_one bypass a w))
  unfolding after_round relay_one wanted
  after_round-IsFlowing all f (fails e) rest w h = record {
    left = [];
    in_order = h;
    running = λ q. absurd cc;
  }
  after_round-IsFlowing all f (packet now bs addr) rest none h =
      elim (Bool-cases (bypassed bypass addr)) [
        | inl e ↦
            rw (e, after_round)
              (record {
                left = wanted rest;
                in_order = h ∙ ap (λ y. f.sent ++ y) (wanted-bypassed now bs addr rest e);
                running = λ q. refl;
              })
        | inr e ↦
            rw (e, after_round)
              (record {
                left = wanted rest;
                in_order =
                    h
                    ∙ ap (λ y. f.sent ++ y) (wanted-kept now bs addr rest e)
                    ∙ sym (append_assoc f.sent ((bs, addr) ∷ []) (wanted rest));
                running = λ q. refl;
              })
      ]
  after_round-IsFlowing all f (packet now bs addr) rest (some x) h =
      elim (Bool-cases (bypassed bypass addr)) [
        | inl e ↦
            rw (e, after_round)
              (record {
                left = wanted rest;
                in_order = h ∙ ap (λ y. f.sent ++ y) (wanted-bypassed now bs addr rest e);
                running = λ q. refl;
              })
        | inr e ↦
            rw (e, after_round)
              (record {
                left = (bs, addr) ∷ wanted rest;
                in_order = h ∙ ap (λ y. f.sent ++ y) (wanted-kept now bs addr rest e);
                running = λ q. absurd cc;
              })
      ]

  step_flow-ended : (w : Option E) (f : Flow E) → f.ended ≡ true → step_flow bypass w f ≡ (f, [])
  unfolding step_flow
  step_flow-ended w f e = rw e refl

  step_flow-idle :
      (w : Option E) (f : Flow E)
      → f.ended ≡ false
      → f.pending ≡ []
      → step_flow bypass w f ≡ (f, [])
  unfolding step_flow
  step_flow-idle w f e p = ground arith

  step_flow-round :
      (w : Option E) (f : Flow E) (a : Arrival E) (rest : List (Arrival E))
      → f.ended ≡ false
      → f.pending ≡ a ∷ rest
      → step_flow bypass w f
        ≡ (after_round rest f (relay_one bypass a w), error_of (relay_one bypass a w))
  unfolding step_flow
  step_flow-round w f a rest e p = ground arith

  -- What a step makes of a direction, and whether it reports an error.
  record IsStepped (all : List (Arrival E)) (f : Flow E) (r : Flow E × List E) : Type 0 where
    flows : IsFlowing all r.0
    reports : r.0.ended ≡ (f.ended || not (is_empty r.1))

  ended-after_round :
      (rest : List (Arrival E)) (f : Flow E) (r : Round E)
      → (after_round rest f r).ended ≡ not (is_empty (error_of r))
  unfolding after_round error_of
  ended-after_round rest f (sends p) = refl
  ended-after_round rest f skips = refl
  ended-after_round rest f (ends e) = refl

  step_flow-IsStepped :
      (all : List (Arrival E)) (w : Option E) (f : Flow E)
      → IsFlowing all f
      → IsStepped all f (step_flow bypass w f)
  step_flow-IsStepped all w f h = elim (Bool-cases f.ended) [
    | inl e ↦
        subst (IsStepped all f) (sym (step_flow-ended w f e))
          (record { flows = h; reports = ground arith })
    | inr e ↦ elim (List-cases f.pending) [
      | inl p ↦
          subst (IsStepped all f) (sym (step_flow-idle w f e p))
            (record { flows = h; reports = ground arith })
      | inr (a, rest, p) ↦ subst (IsStepped all f) (sym (step_flow-round w f a rest e p)) (record {
        flows =
            after_round-IsFlowing all f a rest w
              (h.in_order ∙ ap (λ y. f.sent ++ y) (h.running e ∙ ap wanted p));
        reports = ground (arith, ended-after_round rest f (relay_one bypass a w));
      })
    ]
  ]

  -- Both directions, and the channel, in which there is an error exactly if a loop has ended.
  pub record IsRelaying (as' bs : List (Arrival E)) (s : State E) : Type 0 where
    pub first : IsFlowing as' s.first
    pub second : IsFlowing bs s.second
    pub reported : is_empty s.errc ≡ not (s.first.ended || s.second.ended)

  step-IsRelaying :
      (as' bs : List (Arrival E)) (side : Bool) (w : Option E) (s : State E)
      → IsRelaying as' bs s
      → IsRelaying as' bs (step bypass side w s)
  unfolding step
  step-IsRelaying as' bs true w s h =
      let r = step_flow-IsStepped as' w s.first h.first in
      record {
        first = r.flows;
        second = h.second;
        reported =
            ground
              (arith, h.reported, r.reports, is_empty-append s.errc (step_flow bypass w s.first).1);
      }
  step-IsRelaying as' bs false w s h =
      let r = step_flow-IsStepped bs w s.second h.second in
      record {
        first = h.first;
        second = r.flows;
        reported =
            ground (
              arith,
              h.reported,
              r.reports,
              is_empty-append s.errc (step_flow bypass w s.second).1,
            );
      }

  pub run-steps :
      (as' bs : List (Arrival E)) (schedule : List (Bool × Option E)) (s : State E)
      → IsRelaying as' bs s
      → IsRelaying as' bs (run bypass schedule s)
  unfolding run
  run-steps as' bs [] s h = h
  run-steps as' bs ((side, w) ∷ schedule) s h =
      run-steps as' bs schedule (step bypass side w s) (step-IsRelaying as' bs side w s h)
