-- ===== src/Limiter/Traffic/Words.antt =====
-- Rates that are loaded are words, and all limiters stay positive in a whole run.
use gost_x.Prelude.{ℕ, Bool-cases, inl, inr, List, [], ◌∷◌, ◌++◌, map, is_empty, arith}
use gost_x.Text.{Text, eq_text, tabs_to_blanks, trim_space, split_blanks}
use gost_x.Assoc.{Assoc, insert}
use gost_x.Loader.{Event, parse_line}
use gost_x.Net.{Libs}
use gost_x.Limiter.Traffic.{Rates}
use gost_x.Limiter.Table.{filled}
use gost_x.Limiter.Traffic.Values.{
  Options, rate_of, limit_of, parse_limit, add_value, add_values, items_of, load,
}
use gost_x.Limiter.Traffic.Table.{TrafficLimiter, reload, period_reload, input, output}
use gost_x.Limiter.Traffic.Serving.{Ask, asks_in, asks_out, serve}
use gost_x.Limiter.Traffic.Rated.{IsWord64, AreWords}
use gost_x.Limiter.Traffic.Positive.{AllWords}
use gost_x.Limiter.Traffic.Handed.{
  IsRated, IsRatedGroup, reload-IsRated, input-IsRated, output-IsRated,
}

insert-AllWords :
    (k : Text) (v : Rates) (values : Assoc Rates)
    → AreWords v
    → AllWords values
    → AllWords (insert k v values)
unfolding insert
insert-AllWords k v [] p h = (p, tt)
insert-AllWords k v ((j, w) ∷ values) p h = elim (Bool-cases (eq_text j k)) [
  | inl e ↦ rw e (p, h.1)
  | inr e ↦ rw e (h.0, insert-AllWords k v values p h.1)
]

module _ (parse_bytes : Text → ℕ) (word : (s : Text) → IsWord64 (parse_bytes s)) where
  rate_of-IsWord64 : (s : Text) → IsWord64 (rate_of (parse_bytes s))
  unfolding rate_of
  rate_of-IsWord64 s = ground (arith, word s)

  limit_of-AreWords : (ws : List Text) → AreWords (limit_of parse_bytes ws).1
  unfolding limit_of
  limit_of-AreWords [] = (omega arith, omega arith)
  limit_of-AreWords (k ∷ []) = (omega arith, omega arith)
  limit_of-AreWords (k ∷ (i ∷ [])) = (rate_of-IsWord64 i, omega arith)
  limit_of-AreWords (k ∷ (i ∷ (o ∷ rest))) = (rate_of-IsWord64 i, rate_of-IsWord64 o)

  parse_limit-AreWords : (s : Text) → AreWords (parse_limit parse_bytes s).1
  unfolding parse_limit
  parse_limit-AreWords s = limit_of-AreWords (filled (split_blanks (trim_space (tabs_to_blanks s))))

  add_values-AllWords :
      (ss : List Text) (values : Assoc Rates)
      → AllWords values
      → AllWords (add_values parse_bytes ss values)
  unfolding add_values add_value
  add_values-AllWords [] values h = h
  add_values-AllWords (s ∷ ss) values h =
      elim (Bool-cases (is_empty (parse_limit parse_bytes s).0)) [
        | inl e ↦ rw (e, add_values) (add_values-AllWords ss values h)
        | inr e ↦
            rw (e, add_values)
              (add_values-AllWords ss
                (insert (parse_limit parse_bytes s).0 (parse_limit parse_bytes s).1 values)
                (insert-AllWords (parse_limit parse_bytes s).0 (parse_limit parse_bytes s).1 values
                  (parse_limit-AreWords s) h))
      ]

  load-AllWords : (o : Options) (t : ℕ) → AllWords (load parse_bytes o t)
  unfolding load
  load-AllWords o t = add_values-AllWords (o.limits ++ map parse_line (items_of o t)) [] tt

  period_reload-IsRated :
      (libs : Libs) (es : List Event) (l : TrafficLimiter)
      → IsRated l
      → IsRated (period_reload libs parse_bytes es l)
  unfolding period_reload
  period_reload-IsRated libs [] l h = h
  period_reload-IsRated libs (Event.done ∷ es) l h = h
  period_reload-IsRated libs (Event.tick t ∷ es) l h =
      period_reload-IsRated libs es (reload libs (load parse_bytes l.options t) l)
        (reload-IsRated libs (load parse_bytes l.options t) l (load-AllWords l.options t) h)

serve-IsRated :
    (libs : Libs) (asks : List Ask) (l : TrafficLimiter) → IsRated l → IsRated (serve libs asks l)
unfolding serve
serve-IsRated libs [] l h = h
serve-IsRated libs (asks_in key ∷ asks) l h =
    serve-IsRated libs asks (input libs key l).1 (input-IsRated libs key l h).1
serve-IsRated libs (asks_out key ∷ asks) l h =
    serve-IsRated libs asks (output libs key l).1 (output-IsRated libs key l h).1

-- After any reloads and then any calls of In and Out, all limiters that the traffic limiter keeps, and
-- all of the group that In or Out returns, have positive rates, if they had so before and
-- units.ParseBase2Bytes gives words of 64 bits: a limiter never blocks its connection for good.
pub serve-period_reload :
    (parse_bytes : Text → ℕ)
    → ((s : Text) → IsWord64 (parse_bytes s))
    → (libs : Libs) (es : List Event) (asks : List Ask) (key : Text) (l : TrafficLimiter)
    → IsRated l
    → let after = serve libs asks (period_reload libs parse_bytes es l) in
      IsRated after × IsRatedGroup (input libs key after).0 × IsRatedGroup (output libs key after).0
serve-period_reload parse_bytes word libs es asks key l h =
    let after = serve libs asks (period_reload libs parse_bytes es l) in
    let is : IsRated after =
      serve-IsRated libs asks (period_reload libs parse_bytes es l)
        (period_reload-IsRated parse_bytes word libs es l h) in
    (is, (input-IsRated libs key after is).0, (output-IsRated libs key after is).0)
