-- ===== src/Service/Tests.antt =====
-- A service with an admission, whose listener fails twice and then for good.
use gost_x.Prelude.{
  ◌+◌, ◌*◌, ◌≡◌, refl, true, false, not, Option, some, List, [], ◌∷◌, ◌++◌, map, is_empty,
}
use gost_x.Text.{Text, codes}
use gost_x.Code.{net_code}
use gost_x.Loader.{second}
use gost_x.Service.{
  Options, zero_options, Client, Effect, runs, sleeps, records, closes, handles, Accepted, accepts,
  temporary, permanent, exec_cmds, next_delay, record_client, deal, accept, serve_loop, serve,
}
use gost_x.Service.Serving.{dealt, arrived, first_permanent, admits}
use gost_x.Service.Backoff.{backoff, delays, errors, serve-deals}

-- Only addresses with a port are admitted.
abbrev options : Options
options = record zero_options {
  admission = some (λ addr. not (is_empty addr));
  recorders = (false, 0) ∷ (true, 1) ∷ [];
  post_up = codes " echo up " ∷ codes " " ∷ [];
}

abbrev good : Client
good = record { conn = 1; addr = codes "10.1.1.1:5" }

abbrev bad : Client
bad = record { conn = 2; addr = [] }

abbrev answers : List (Accepted Text)
answers =
    temporary (codes "e")
    ∷ temporary (codes "e")
    ∷ accepts good
    ∷ temporary (codes "e")
    ∷ accepts bad
    ∷ permanent (codes "closed")
    ∷ accepts good
    ∷ []

served : List Effect × Option Text
unfolding net_code exec_cmds next_delay record_client deal accept serve_loop serve
served = serve options answers

served_result : served ≡ (
  runs (codes "echo up")
      ∷ sleeps (1 * second)
      ∷ sleeps (2 * second)
      ∷ records 1 (codes "10.1.1.1")
      ∷ handles good
      ∷ sleeps (1 * second)
      ∷ records 1 []
      ∷ closes bad
      ∷ [],
  some (codes "closed"),
)
unfolding served
served_result = refl

serve-deals_example :
    (dealt (serve options answers).0 ≡ map (λ d. (admits options.admission d, d)) (arrived answers))
    × ((serve options answers).1 ≡ first_permanent answers)
    × ((serve_loop options 7 (accepts good ∷ (errors (codes "e" ∷ codes "f" ∷ []) ++ answers))).0
        ≡ accept options good
          ++ (delays 0 2 ++ (serve_loop options (backoff (2 + 0) * second) answers).0))
serve-deals_example = serve-deals options answers 7 good (codes "e" ∷ codes "f" ∷ [])
