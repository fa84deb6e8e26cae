-- ===== src/Limiter/Packets/Cached.antt =====
-- limiter/traffic/wrapper/conn.go: the limiters that a packet connection finds, in its cache or not.
use gost_x.Prelude.{
  ℕ, ◌+◌, ◌≡◌, refl, sym, ◌∙◌, subst, Option, none, some, Option-cases, Bool-cases, inl, inr, List,
  [], ◌∷◌, arith,
}
use gost_x.Text.{Text, eq_text}
use gost_x.Text.Laws.{eq_text_iff}
use gost_x.Assoc.{Assoc, lookup, insert, lookup-insert}
use gost_x.Net.{Libs}
use gost_x.Loader.{second}
use gost_x.Limiter.Traffic.Table.{TrafficLimiter, input, output}
use gost_x.Limiter.Traffic.Serving.{Ask, asks_in, asks_out, serve}
use gost_x.Limiter.Traffic.Stable.{input-serve}
use gost_x.Limiter.Packets.{Cached, PacketConn, get_cached, get_in_limiter, get_out_limiter}

-- A limiter that answers like another one.
pub record IsLike (libs : Libs) (l0 l : TrafficLimiter) : Type 0 where
  pub in_like : (addr : Text) → (input libs addr l).0 ≡ (input libs addr l0).0
  pub out_like : (addr : Text) → (output libs addr l).0 ≡ (output libs addr l0).0

-- The cached limiters are those that `answer` gives.
abbrev pub AllCached : (Text → Option (List ℕ)) → Assoc Cached → Type 0
AllCached answer m =
    (addr : Text) (lim : Option (List ℕ)) (e : ℕ)
    → lookup addr m ≡ some (lim, e)
    → lim ≡ answer addr

-- A packet connection whose limiters are those of `l0`.
pub record IsServing (libs : Libs) (l0 : TrafficLimiter) (c : PacketConn) : Type 0 where
  pub limiter : (l : TrafficLimiter) × (c.limiter ≡ some l) × IsLike libs l0 l
  pub in_cached : AllCached (λ addr. (input libs addr l0).0) c.in_limits
  pub out_cached : AllCached (λ addr. (output libs addr l0).0) c.out_limits

get_cached-AllCached :
    (answer : Text → Option (List ℕ)) (now : ℕ) (addr : Text) (m : Assoc Cached)
    (lim : Option (List ℕ))
    → AllCached answer m
    → get_cached now addr m ≡ some lim
    → lim ≡ answer addr
unfolding get_cached
get_cached-AllCached answer now addr m lim h e = elim (Option-cases (lookup addr m)) [
  | inl f ↦ absurd (ground arith)
  | inr ((lim', t), f) ↦ ground (arith, h addr lim' t f)
]

insert-AllCached :
    (answer : Text → Option (List ℕ)) (addr : Text) (t : ℕ) (m : Assoc Cached)
    (lim : Option (List ℕ))
    → lim ≡ answer addr
    → AllCached answer m
    → AllCached answer (insert addr (lim, t) m)
insert-AllCached answer addr t m lim q h j lim' t' e = elim (Bool-cases (eq_text addr j)) [
  | inl f ↦ ground (arith, lookup-insert addr j (lim, t) m, eq_text_iff addr j)
  | inr f ↦ h j lim' t' (ground (arith, lookup-insert addr j (lim, t) m))
]

-- What a lookup of a limiter returns and leaves.
pub record IsFound (libs : Libs) (l0 : TrafficLimiter) (answer : Option (List ℕ))
    (r : Option (List ℕ) × PacketConn) : Type 0 where
  pub is_answer : r.0 ≡ answer
  pub serves : IsServing libs l0 r.1

IsLike-serve :
    (libs : Libs) (l0 l : TrafficLimiter) (ask : Ask)
    → IsLike libs l0 l
    → IsLike libs l0 (serve libs (ask ∷ []) l)
IsLike-serve libs l0 l ask like = record {
  in_like = λ a. (input-serve libs a (ask ∷ []) l).0 ∙ like.in_like a;
  out_like = λ a. (input-serve libs a (ask ∷ []) l).1 ∙ like.out_like a;
}

module _ (libs : Libs) (now : ℕ) (addr : Text) (c : PacketConn) where
  get_in_limiter-hit :
      (l : TrafficLimiter) (lim : Option (List ℕ))
      → c.limiter ≡ some l
      → get_cached now addr c.in_limits ≡ some lim
      → get_in_limiter libs now addr c ≡ (lim, c)
  unfolding get_in_limiter
  get_in_limiter-hit l lim e f = ground arith

  get_in_limiter-miss :
      (l : TrafficLimiter)
      → c.limiter ≡ some l
      → get_cached now addr c.in_limits ≡ none
      → get_in_limiter libs now addr c ≡ (
        (input libs addr l).0,
        record c {
          limiter = some (input libs addr l).1;
          in_limits = insert addr ((input libs addr l).0, now + second) c.in_limits;
        },
      )
  unfolding get_in_limiter
  get_in_limiter-miss l e f = ground arith

  get_out_limiter-hit :
      (l : TrafficLimiter) (lim : Option (List ℕ))
      → c.limiter ≡ some l
      → get_cached now addr c.out_limits ≡ some lim
      → get_out_limiter libs now addr c ≡ (lim, c)
  unfolding get_out_limiter
  get_out_limiter-hit l lim e f = ground arith

  get_out_limiter-miss :
      (l : TrafficLimiter)
      → c.limiter ≡ some l
      → get_cached now addr c.out_limits ≡ none
      → get_out_limiter libs now addr c ≡ (
        (output libs addr l).0,
        record c {
          limiter = some (output libs addr l).1;
          out_limits = insert addr ((output libs addr l).0, now + second) c.out_limits;
        },
      )
  unfolding get_out_limiter
  get_out_limiter-miss l e f = ground arith

module _ (libs : Libs) (l0 : TrafficLimiter) (now : ℕ) (addr : Text) (c : PacketConn)
    (s : IsServing libs l0 c) where
  pub get_in_limiter-IsFound :
      IsFound libs l0 (input libs addr l0).0 (get_in_limiter libs now addr c)
  unfolding serve
  get_in_limiter-IsFound =
      let (l, e, like) = s.limiter in
      elim (Option-cases (get_cached now addr c.in_limits)) [
        | inr (lim, f) ↦
            subst (IsFound libs l0 (input libs addr l0).0)
              (sym (get_in_limiter-hit libs now addr c l lim e f))
              (record {
                is_answer =
                    get_cached-AllCached (λ a. (input libs a l0).0) now addr c.in_limits lim
                      s.in_cached f;
                serves = s;
              })
        | inl f ↦
            subst (IsFound libs l0 (input libs addr l0).0)
              (sym (get_in_limiter-miss libs now addr c l e f))
              (record {
                is_answer = like.in_like addr;
                serves = record {
                  limiter =
                      ((input libs addr l).1, refl, IsLike-serve libs l0 l (asks_in addr) like);
                  in_cached =
                      insert-AllCached (λ a. (input libs a l0).0) addr (now + second) c.in_limits
                        (input libs addr l).0 (like.in_like addr) s.in_cached;
                  out_cached = s.out_cached;
                };
              })
      ]

  pub get_out_limiter-IsFound :
      IsFound libs l0 (output libs addr l0).0 (get_out_limiter libs now addr c)
  unfolding serve
  get_out_limiter-IsFound =
      let (l, e, like) = s.limiter in
      elim (Option-cases (get_cached now addr c.out_limits)) [
        | inr (lim, f) ↦
            subst (IsFound libs l0 (output libs addr l0).0)
              (sym (get_out_limiter-hit libs now addr c l lim e f))
              (record {
                is_answer =
                    get_cached-AllCached (λ a. (output libs a l0).0) now addr c.out_limits lim
                      s.out_cached f;
                serves = s;
              })
        | inl f ↦
            subst (IsFound libs l0 (output libs addr l0).0)
              (sym (get_out_limiter-miss libs now addr c l e f))
              (record {
                is_answer = like.out_like addr;
                serves = record {
                  limiter =
                      ((output libs addr l).1, refl, IsLike-serve libs l0 l (asks_out addr) like);
                  out_cached =
                      insert-AllCached (λ a. (output libs a l0).0) addr (now + second) c.out_limits
                        (output libs addr l).0 (like.out_like addr) s.out_cached;
                  in_cached = s.in_cached;
                };
              })
      ]
