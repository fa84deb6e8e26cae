-- ===== src/Service/Backoff.antt =====
-- The delays of Serve after temporary errors.
use gost_x.Prelude.{
  ℕ, zero, suc, ◌+◌, ◌*◌, ◌≡◌, refl, ap, ◌∙◌, List, [], ◌∷◌, ◌++◌, map, length, arith,
}
use gost_x.Loader.{second}
use gost_x.Service.Serving.{dealt, arrived, first_permanent, admits, serve-arrived}
use gost_x.Service.{
  Options, Client, Effect, sleeps, Accepted, accepts, temporary, next_delay, accept, serve_loop,
  serve,
}

-- The delay in seconds after so many temporary errors in a row.
pub backoff : ℕ → ℕ
backoff zero = 0
backoff (suc zero) = 1
backoff (suc (suc zero)) = 2
backoff (suc (suc (suc zero))) = 4
backoff (suc (suc (suc (suc n)))) = 5

next_delay-backoff : (n : ℕ) → next_delay (backoff n * second) ≡ backoff (suc n) * second
unfolding next_delay backoff
next_delay-backoff zero = refl
next_delay-backoff (suc zero) = refl
next_delay-backoff (suc (suc zero)) = refl
next_delay-backoff (suc (suc (suc zero))) = refl
next_delay-backoff (suc (suc (suc (suc n)))) = refl

-- The sleeps after the temporary errors number k + 1, ..., k + n.
pub delays : ℕ → ℕ → List Effect
delays k zero = []
delays k (suc n) = sleeps (backoff (suc k) * second) ∷ delays (suc k) n

pub errors : {E : Type 0} → List E → List (Accepted E)
errors [] = []
errors (e ∷ es) = temporary e ∷ errors es

zero_add : (k : ℕ) → k ≡ 0 + k
zero_add k = omega arith

add_suc : (m k : ℕ) → m + suc k ≡ suc m + k
add_suc m k = omega arith

-- What the loop does on temporary errors in a row.
loop-errors :
    {E : Type 0} (o : Options) (k : ℕ) (es : List E) (as' : List (Accepted E))
    → (serve_loop o (backoff k * second) (errors es ++ as')).0
      ≡ delays k (length es) ++ (serve_loop o (backoff (length es + k) * second) as').0
unfolding serve_loop errors delays
loop-errors o k [] as' = ap (λ n. (serve_loop o (backoff n * second) as').0) (zero_add k)
loop-errors o k (e ∷ es) as' = rw (next_delay-backoff k) (
    ap (λ y. sleeps (backoff (suc k) * second) ∷ y)
      (loop-errors o (suc k) es as'
        ∙ ap (λ n. delays (suc k) (length es) ++ (serve_loop o (backoff n * second) as').0)
            (add_suc (length es) k)))

serve_loop-errors :
    {E : Type 0} (o : Options) (t : ℕ) (c : Client) (es : List E) (as' : List (Accepted E))
    → (serve_loop o t (accepts c ∷ (errors es ++ as'))).0
      ≡ accept o c
        ++ (delays 0 (length es) ++ (serve_loop o (backoff (length es + 0) * second) as').0)
unfolding serve_loop backoff
serve_loop-errors o t c es as' = ap (λ y. accept o c ++ y) (loop-errors o 0 es as')

-- Serve gives every connection that comes before a permanent error to the handler, if there is no
-- admission or it admits the address, and else closes it, each once and in the order of their arrival,
-- also after any number of temporary errors. It returns exactly on a permanent error, with this error.
-- After a connection it waits 1, 2 and 4 seconds after the first three temporary errors in a row, and 5
-- seconds after each further one, whatever the delay was before; then it goes on with what Accept
-- returns next.
pub serve-deals :
    {E : Type 0} (o : Options) (as' : List (Accepted E)) (t : ℕ) (c : Client) (es : List E)
    → (dealt (serve o as').0 ≡ map (λ d. (admits o.admission d, d)) (arrived as'))
      × ((serve o as').1 ≡ first_permanent as')
      × ((serve_loop o t (accepts c ∷ (errors es ++ as'))).0
          ≡ accept o c
            ++ (delays 0 (length es) ++ (serve_loop o (backoff (length es + 0) * second) as').0))
serve-deals o as' t c es =
    let all = serve-arrived o as' in (all.0, all.1, serve_loop-errors o t c es as')
