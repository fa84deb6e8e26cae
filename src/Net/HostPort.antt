-- ===== src/Net/HostPort.antt =====
-- net.SplitHostPort on "host:port" and on a plain host.
use gost_x.Prelude.{ℕ, ◌+◌, ◌≡◌, ◌≢◌, refl, some, [], ◌∷◌, ◌++◌, arith, length, drop, take-append}
use gost_x.Text.{Text, index_byte}
use gost_x.Text.Laws.{Free, index_byte-Free, last_index_byte-append, last_index_byte-Free}
use gost_x.Net.{split_at_colon, split_host_port, strip_port}

-- No colon and no bracket, as in a host name or an IPv4 address.
pub record IsPlain (s : Text) : Type 0 where
  pub colon : Free b':' s
  pub opening : Free b'[' s
  pub closing : Free b']' s

pub Free-append : (c : ℕ) (s t : Text) → Free c s → Free c t → Free c (s ++ t)
Free-append c [] t h k = k
Free-append c (a ∷ s) t h k = (h.0, Free-append c s t h.1 k)

drop-suc_append : (s t : Text) (c : ℕ) → drop (length s + 1) (s ++ c ∷ t) ≡ t
drop-suc_append [] t c = refl
drop-suc_append (a ∷ s) t c = ground (arith, drop-suc_append s t c)

Free-cons_append : (c : ℕ) (s t : Text) (d : ℕ) → Free c s → d ≢ c → Free c t → Free c (s ++ d ∷ t)
Free-cons_append c s t d h ne k = Free-append c s (d ∷ t) h (ne, k)

split_at_colon-append :
    (host port : Text)
    → IsPlain host
    → IsPlain port
    → split_at_colon (host ++ b':' ∷ port) (length host) ≡ some (host, port)
unfolding split_at_colon index_byte
split_at_colon-append [] port h p =
    ground (arith, index_byte-Free b'[' port p.opening, index_byte-Free b']' port p.closing)
split_at_colon-append (c ∷ host) port h p = ground (
  arith,
  index_byte-Free b':' host h.colon.1,
  take-append host (b':' ∷ port),
  drop-suc_append host port b':',
  index_byte-Free b'[' (host ++ b':' ∷ port)
      (Free-cons_append b'[' host port b':' h.opening.1 (omega arith) p.opening),
  index_byte-Free b']' (host ++ b':' ∷ port)
      (Free-cons_append b']' host port b':' h.closing.1 (omega arith) p.closing),
)

pub split_host_port-append :
    (host port : Text)
    → IsPlain host
    → IsPlain port
    → split_host_port (host ++ b':' ∷ port) ≡ some (host, port)
unfolding split_host_port
split_host_port-append host port h p =
    ground
      (arith, last_index_byte-append b':' host port p.colon, split_at_colon-append host port h p)

pub strip_port-append :
    (host port : Text)
    → IsPlain host
    → host ≢ []
    → IsPlain port
    → strip_port (host ++ b':' ∷ port) ≡ host
unfolding strip_port
strip_port-append [] port h ne p = absurd (ne refl)
strip_port-append (c ∷ host) port h ne p =
    rw (split_host_port-append (c ∷ host) port h p, strip_port)

pub strip_port_plain : (host : Text) → Free b':' host → strip_port host ≡ host
unfolding strip_port split_host_port
strip_port_plain host h = ground (arith, last_index_byte-Free b':' host h)
