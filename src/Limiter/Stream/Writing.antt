-- ===== src/Limiter/Stream/Writing.antt =====
-- The loop of Write.
use gost_x.Prelude.{
  ℕ, zero, suc, ◌+◌, ◌-◌, ◌≤◌, ◌<◌, ◌≡◌, refl, sym, ap, ◌∙◌, Option, none, some, Option-cases, inl,
  inr, Bool-cases, ltb, List, [], ◌∷◌, ◌++◌, append-nil, append_assoc, All, length, take, drop,
  take-take, take-add, length-take, length-drop, arith,
}
use gost_x.Text.{Text}
use gost_x.Net.{Libs}
use gost_x.Loader.{second}
use gost_x.Limiter.Traffic.Table.{TrafficLimiter}
use gost_x.Int64.{sign_bit}
use gost_x.Limiter.Traffic.Waiting.{IsRate, group_wait, group_wait-IsWait}
use gost_x.Limiter.Stream.Ready.{IsReady, get_out_limiter-IsReady}
use gost_x.Conns.{Conn, IsWritten, IsSink}
use gost_x.Limiter.Stream.{ServerConn, get_out_limiter, write_loop, write_with, write}

-- Go's lengths are ints.
abbrev pub IsInt : ℕ → Type 0
IsInt n = n < sign_bit

-- The same of the result of the loop, which may run out of rounds.
abbrev WritesAll :
    {S E : Type 0} → (S → List ℕ) → List ℕ → ℕ → S → Option ((ℕ × Option E) × S) → Type 0
WritesAll {S} {E} sent b n s w =
    (m : ℕ) × (err : Option E) × (t : S) × (w ≡ some ((n + m, err), t))
    × IsWritten sent b s ((m, err), t)

module _ {S E : Type 0} (sent : S → List ℕ) where
  -- A chunk at the front of `b`.
  chunk-IsWritten :
      (w : ℕ) (b : List ℕ) (s : S) (m : ℕ) (e : E) (err : Option E) (t : S)
      → w ≤ length b
      → IsWritten sent (take w b) s ((m, err), t)
      → IsWritten sent b s ((m, some e), t)
  chunk-IsWritten w b s m e err t p c = record {
    front =
        c.front
        ∙ ap (λ y. sent s ++ y) (take-take m w b (omega (arith, c.bound, length-take w b p)));
    bound = omega (arith, c.bound, length-take w b p);
    whole = λ q. absurd cc;
  }

  -- The loop goes on behind a chunk of `w` bytes.
  next-IsWritten :
      (w : ℕ) (b : List ℕ) (s s' : S) (nn m : ℕ) (err : Option E) (t : S)
      → nn ≡ w
      → w ≤ length b
      → sent s' ≡ sent s ++ take nn (take w b)
      → IsWritten sent (drop nn b) s' ((m, err), t)
      → IsWritten sent b s ((nn + m, err), t)
  next-IsWritten w b s s' nn m err t q p f c = record {
    front =
        c.front
        ∙ ap (λ y. y ++ take m (drop nn b))
            (f ∙ ap (λ y. sent s ++ y) (take-take nn w b (omega (arith, q))))
        ∙ append_assoc (sent s) (take nn b) (take m (drop nn b))
        ∙ ap (λ y. sent s ++ y) (sym (take-add nn m b));
    bound = omega (arith, c.bound, length-drop nn b);
    whole = λ e. omega (arith, c.whole e, length-drop nn b);
  }

  shift-WritesAll :
      (b b' : List ℕ) (n nn : ℕ) (s s' : S) (w : Option ((ℕ × Option E) × S))
      → ((m : ℕ) (err : Option E) (t : S)
          → IsWritten sent b' s' ((m, err), t)
          → IsWritten sent b s ((nn + m, err), t))
      → WritesAll sent b' (n + nn) s' w
      → WritesAll sent b n s w
  shift-WritesAll b b' n nn s s' w f (m, err, t, e, c) =
      (nn + m, err, t, e ∙ ap (λ y. some ((y, err), t)) (omega arith), f m err t c)

module _ {S E : Type 0} (io : Conn S E) (sent : S → List ℕ) (sink : IsSink io sent) where
  loop-WritesAll :
      (g : List ℕ)
      → All IsRate g
      → (k : ℕ) (b : List ℕ) (n : ℕ) (s : S) → length b < k
      → IsInt (length b)
      → WritesAll sent b n s (write_loop k io g b n s)
  unfolding write_loop
  loop-WritesAll g h zero b n s p q = absurd (omega arith)
  loop-WritesAll g h (suc k) [] n s p q = (
    0,
    none,
    s,
    ap (λ y. some ((y, none), s)) (omega arith),
    record { front = sym (append-nil (sent s)); bound = omega arith; whole = λ e. refl },
  )
  loop-WritesAll g h (suc k) (x ∷ b) n s p q =
      let w = group_wait g (length (x ∷ b)) in
      let positive = (group_wait-IsWait g h).positive (length (x ∷ b)) (omega arith) q in
      let at_most = (group_wait-IsWait g h).at_most (length (x ∷ b)) q in
      let r = io.write (take w (x ∷ b)) s in
      let written = sink.written (take w (x ∷ b)) s in
      elim (Option-cases r.0.1) [
        | inr (e, f) ↦
            rw (f, write_loop)
              (
                r.0.0,
                some e,
                r.1,
                refl,
                chunk-IsWritten sent w (x ∷ b) s r.0.0 e r.0.1 r.1 at_most written,
              )
        | inl f ↦
            let all = written.whole f ∙ length-take w (x ∷ b) at_most in
            rw (f, write_loop)
              (shift-WritesAll sent (x ∷ b) (drop r.0.0 (x ∷ b)) n r.0.0 s r.1
                (write_loop k io g (drop r.0.0 (x ∷ b)) (n + r.0.0) r.1)
                (λ m err t.
                  next-IsWritten sent w (x ∷ b) s r.1 r.0.0 m err t all at_most written.front)
                (loop-WritesAll g h k (drop r.0.0 (x ∷ b)) (n + r.0.0) r.1
                  (omega (arith, length-drop r.0.0 (x ∷ b), all, positive))
                  (omega (arith, length-drop r.0.0 (x ∷ b), all, positive))))
      ]

  write_with-WritesAll :
      (lim : Option (List ℕ)) (b : List ℕ) (s : S)
      → ((g : List ℕ) → lim ≡ some g → All IsRate g)
      → IsInt (length b)
      → WritesAll sent b 0 s (write_with io lim b s)
  unfolding write_with
  write_with-WritesAll none b s h q =
      let r = io.write b s in
      (r.0.0, r.0.1, r.1, ap (λ n. some ((n, r.0.1), r.1)) (omega arith), sink.written b s)
  write_with-WritesAll (some g) b s h q =
      loop-WritesAll g (h g refl) (suc (length b)) b 0 s (omega arith) q

get_out_limiter-same :
    {S : Type 0} (libs : Libs) (now : ℕ) (addr : Text) (w : ServerConn S × TrafficLimiter)
    → (get_out_limiter libs now addr w).1.0.conn ≡ w.0.conn
unfolding get_out_limiter
get_out_limiter-same libs now addr w = elim (Bool-cases (ltb second (now - w.0.exp_out))) [
  | inl e ↦ rw e refl
  | inr e ↦ rw e refl
]

-- The group that Write uses.
abbrev pub group_out :
    {S : Type 0} → Libs → ℕ → Text → ServerConn S × TrafficLimiter → Option (List ℕ)
group_out libs now addr w = (get_out_limiter libs now addr w).0

write-write_with :
    {S E : Type 0} (libs : Libs) (io : Conn S E) (now : ℕ) (addr : Text) (b : List ℕ)
    (w : ServerConn S × TrafficLimiter) (r : (ℕ × Option E) × S)
    → write_with io (group_out libs now addr w) b (get_out_limiter libs now addr w).1.0.conn
      ≡ some r
    → write libs io now addr b w
      ≡ some (
        r.0,
        (
          record (get_out_limiter libs now addr w).1.0 { conn = r.1 },
          (get_out_limiter libs now addr w).1.1,
        ),
      )
unfolding write
write-write_with libs io now addr b w r e = rw (e, write) refl

-- Write of the wrapped connection ends, after at most one round for each byte, and keeps the promises
-- of Write of the connection: what is sent is the front of the bytes, in their order and of the length
-- that is returned, and it is all of them if there is no error. This holds if all limiters that are
-- kept have positive rates, which is so again afterwards.
pub write-IsWritten :
    {S E : Type 0} (sent : S → List ℕ) (io : Conn S E)
    → IsSink io sent
    → (libs : Libs) (now : ℕ) (addr : Text) (b : List ℕ) (w : ServerConn S × TrafficLimiter)
    → IsReady w
    → length b < sign_bit
    → (r : (ℕ × Option E) × (ServerConn S × TrafficLimiter)) × (write libs io now addr b w ≡ some r)
      × IsWritten (λ v. sent v.0.conn) b w r
      × IsReady r.1
write-IsWritten sent io sink libs now addr b w h q =
    let (lim, (c, l)) = get_out_limiter libs now addr w in
    let ready = get_out_limiter-IsReady libs now addr w h in
    let same = get_out_limiter-same libs now addr w in
    let (m, err, s, e, is) = write_with-WritesAll io sent sink lim b c.conn ready.0 q in
    (
      ((m, err), (record c { conn = s }, l)),
      write-write_with libs io now addr b w ((m, err), s)
          (e ∙ ap (λ n. some ((n, err), s)) (omega arith)),
      record {
        front = is.front ∙ ap (λ t. sent t ++ take m b) same;
        bound = is.bound;
        whole = is.whole;
      },
      record { in_rates = ready.1.in_rates; out_rates = ready.1.out_rates; table = ready.1.table },
    )
