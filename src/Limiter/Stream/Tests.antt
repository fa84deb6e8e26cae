-- ===== src/Limiter/Stream/Tests.antt =====
-- A connection that is limited to 3 bytes a second, over one that gives at most 4 bytes at a time.
use gost_x.Prelude.{
  ℕ, zero, suc, ◌*◌, ◌∙◌, ◌+◌, ◌≤◌, ◌<◌, ◌≡◌, refl, ap, subst, Option, none, some, List, [], ◌∷◌,
  ◌++◌, All, length, take, drop, take-drop, take-all, sym, arith, if◌then◌else◌, ltb,
}
use gost_x.Text.{Text, codes}
use gost_x.Samples.{libs}
use gost_x.Loader.{second}
use gost_x.Int64.{gt64}
use gost_x.Limiter.Traffic.Table.{TrafficLimiter, fresh}
use gost_x.Limiter.Traffic.Values.{zero_options}
use gost_x.Limiter.Traffic.Waiting.{IsRate, wait_one, group_wait}
use gost_x.Limiter.Traffic.Handed.{fresh-IsRated}
use gost_x.Limiter.Stream.Ready.{IsReady}
use gost_x.Conns.{Conn, IsRead, IsSource, IsWritten, IsSink}
use gost_x.Limiter.Stream.{
  ServerConn, keep_rest, from_rbuf, from_conn, limited_read, read_with, get_in_limiter,
  get_out_limiter, read, write,
}
use gost_x.Limiter.Stream.Chunks.{pending_with}
use gost_x.Limiter.Stream.Reading.{read-IsRead}
use gost_x.Limiter.Stream.Writing.{write-IsWritten}

-- The bytes that are still to come, and those that were sent.
abbrev Pair : Type 0
Pair = List ℕ × List ℕ

read_some : List ℕ → ℕ → Pair → (List ℕ × Option Text) × Pair
read_some [] len s = (([], some (codes "EOF")), s)
read_some (x ∷ bs) len s = ((take len (x ∷ bs), none), (drop len (x ∷ bs), s.1))

io : Conn Pair Text
unfolding read_some
io = record {
  read = λ len s. read_some s.0 (if ltb 4 len then 4 else len) s;
  write = λ b s. ((length b, none), (s.0, s.1 ++ b));
}

length-take_le : (n : ℕ) (bs : List ℕ) → length (take n bs) ≤ n
length-take_le zero bs = omega arith
length-take_le (suc n) [] = omega arith
length-take_le (suc n) (b ∷ bs) = omega (arith, length-take_le n bs)

length-take_pos : (n : ℕ) (b : ℕ) (bs : List ℕ) → 0 < n → 0 < length (take n (b ∷ bs))
length-take_pos zero b bs h = h
length-take_pos (suc n) b bs h = omega arith

read_some-IsRead :
    (bs : List ℕ) (n len : ℕ) (s : Pair)
    → s.0 ≡ bs
    → n ≤ len
    → (0 < len → 0 < n)
    → IsRead (λ v. v.0) len s (read_some bs n s)
unfolding read_some
read_some-IsRead [] n len s e h k = record {
  front = refl;
  bound = omega arith;
  some_bytes = λ q. absurd cc;
}
read_some-IsRead (b ∷ bs) n len s e h k = record {
  front = e ∙ sym (take-drop n (b ∷ bs));
  bound = omega (arith, length-take_le n (b ∷ bs));
  some_bytes = λ q l. length-take_pos n b bs (k l);
}

io-IsSource : IsSource io (λ s. s.0)
unfolding io
io-IsSource = record {
  was_read = λ len s.
      read_some-IsRead s.0 (if ltb 4 len then 4 else len) len s refl (ground arith)
        (λ h. ground arith);
}

io-IsSink : IsSink io (λ s. s.1)
unfolding io
io-IsSink = record {
  written = λ b s. record {
    front = ap (λ y. s.1 ++ y) (sym (take-all (length b) b (omega arith)));
    bound = omega arith;
    whole = λ e. refl;
  };
}

abbrev limited : ServerConn Pair × TrafficLimiter
limited = (
  record {
    conn = (codes "abcdefgh", codes "x");
    rbuf = [];
    limiter_in = some (3 ∷ 5 ∷ []);
    exp_in = 10 * second;
    limiter_out = some (3 ∷ 5 ∷ []);
    exp_out = 10 * second;
  },
  fresh zero_options,
)

-- The client gets three bytes, and the fourth byte at its next read.
read_twice : List Text
unfolding keep_rest from_rbuf from_conn limited_read read_with get_in_limiter read group_wait
    wait_one gt64 io
read_twice =
    let (a, v) = read libs io (10 * second + 5) (codes "10.1.1.1:1") 8 limited in
    let (b, u) = read libs io (10 * second + 6) (codes "10.1.1.1:1") 8 v in
    a.0 ∷ b.0 ∷ u.0.rbuf ∷ []

read_twice_result : read_twice ≡ codes "abc" ∷ codes "d" ∷ [] ∷ []
unfolding read_twice
read_twice_result = refl

limited_rates : All IsRate (3 ∷ 5 ∷ [])
limited_rates = ((omega arith, omega arith), ((omega arith, omega arith), tt))

same : (g : List ℕ) → some (3 ∷ 5 ∷ []) ≡ some g → 3 ∷ 5 ∷ [] ≡ g
same g e = cc

rates_in : (g : List ℕ) → some (3 ∷ 5 ∷ []) ≡ some g → All IsRate g
rates_in g e = subst (All IsRate) (same g e) limited_rates

limited-IsReady : IsReady limited
limited-IsReady = record {
  in_rates = rates_in;
  out_rates = rates_in;
  table = fresh-IsRated zero_options;
}

read-IsRead_example :
    IsRead
      (λ v. pending_with (λ s. s.0) v.0)
      8
      limited
      (read libs io (10 * second + 5) (codes "10.1.1.1:1") 8 limited)
    × IsReady (read libs io (10 * second + 5) (codes "10.1.1.1:1") 8 limited).1
unfolding get_in_limiter
read-IsRead_example =
    read-IsRead (λ s. s.0) io io-IsSource libs (10 * second + 5) (codes "10.1.1.1:1") 8 limited
      limited-IsReady (λ e. absurd cc) (omega arith)

write-IsWritten_example :
    (r : (ℕ × Option Text) × (ServerConn Pair × TrafficLimiter)) × (write libs io
        (10 * second + 5)
        (codes "10.1.1.1:1")
        (codes "hello")
        limited
      ≡ some r)
    × IsWritten (λ v. v.0.conn.1) (codes "hello") limited r
    × IsReady r.1
unfolding get_out_limiter
write-IsWritten_example =
    write-IsWritten (λ s. s.1) io io-IsSink libs (10 * second + 5) (codes "10.1.1.1:1")
      (codes "hello") limited limited-IsReady (omega arith)
