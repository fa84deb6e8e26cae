-- ===== src/Hosts/Lookup.antt =====
-- What Lookup answers.
use gost_x.Prelude.{
  suc, ◌≡◌, Bool, false, Option, none, some, Option-cases, inl, inr, List, [], ◌∷◌, ◌++◌, arith,
  or_else, All, length, length-append, length-drop,
}
use gost_x.Text.{Text, eq_text, codes}
use gost_x.Text.Labels.{IsLabel, dotted, first_dotted, find_suffix-first_dotted, length-dotted}
use gost_x.Net.{Ip, to4}
use gost_x.Hosts.{HostMapper, lookup_host, find_ips, of_network, only_v4, only_v6, lookup_ips}

-- What Lookup returns for the addresses that it finds.
abbrev pub returned : Text → Option (List Ip) → List Ip × Bool
returned network none = ([], false)
returned network (some ips) = (of_network network ips, false)

-- For a host name of labels Lookup returns, filtered by the network, the addresses of the most
-- specific entry of the table: the name's own, then those of ".name" and of ".parent" for its parent
-- domains, the longest first; none if there is no entry. Its second result is false in every case.
pub lookup_ips-first :
    (h : HostMapper) (network l : Text) (ls : List Text)
    → IsLabel l
    → All IsLabel ls
    → lookup_ips h network (l ++ dotted ls)
      ≡ returned network (
          or_else
            (lookup_host h.mappings (l ++ dotted ls))
            (first_dotted (lookup_host h.mappings) (l ∷ ls)))
unfolding lookup_ips find_ips
lookup_ips-first h network l ls hl hs = ground (
  arith,
  find_suffix-first_dotted (lookup_host h.mappings) (suc (length (l ++ dotted ls))) l ls hl hs
      (omega (arith, length-dotted ls, length-append l (dotted ls))),
)

-- To4 answers with 4 bytes.
length-to4 : (ip v4 : Ip) → to4 ip ≡ some v4 → length v4 ≡ 4
unfolding to4
length-to4 ip v4 e = ground (arith, length-drop 12 ip)

only_v4-length : (ips : List Ip) → All (λ ip. length ip ≡ 4) (only_v4 ips)
unfolding only_v4
only_v4-length [] = tt
only_v4-length (ip ∷ ips) = elim (Option-cases (to4 ip)) [
  | inl e ↦ rw (e, All) (only_v4-length ips)
  | inr (v4, e) ↦ rw (e, All) (length-to4 ip v4 e, only_v4-length ips)
]

only_v6-to4 : (ips : List Ip) → All (λ ip. to4 ip ≡ none) (only_v6 ips)
unfolding only_v6
only_v6-to4 [] = tt
only_v6-to4 (ip ∷ ips) = elim (Option-cases (to4 ip)) [
  | inl e ↦ rw (e, All) (e, only_v6-to4 ips)
  | inr (v4, e) ↦ rw (e, All) (only_v6-to4 ips)
]

-- Lookup on the network "ip4" returns addresses of 4 bytes only, and on "ip6" only addresses that
-- are no IPv4 address in either form.
lookup_ips_network :
    (h : HostMapper) (host : Text)
    → All (λ ip. length ip ≡ 4) (lookup_ips h (codes "ip4") host).0
      × All (λ ip. to4 ip ≡ none) (lookup_ips h (codes "ip6") host).0
unfolding lookup_ips of_network eq_text
lookup_ips_network h host = elim (Option-cases (find_ips h.mappings host)) [
  | inl e ↦ rw (e, All) (tt, tt)
  | inr (ips, e) ↦ rw (e, All) (only_v4-length ips, only_v6-to4 ips)
]
