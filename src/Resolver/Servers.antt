-- ===== src/Resolver/Servers.antt =====
-- resolver/resolver.go and internal/util/resolver/resolver.go: the resolver, which asks its name
-- servers in turn and keeps their answers in one cache.
pub mod Kept
pub mod Answers
pub mod Shadowed
mod Tests
use gost_x.Prelude.{
  ℕ, ◌+◌, ◌-◌, Bool, true, false, not, ◌&&◌, Option, none, some, List, [], ◌∷◌, ◌++◌, map, is_empty,
  is_some, if◌then◌else◌, ◌⊎◌, inl, inr,
}
use gost_x.Text.{Text, codes, eq_text, trim_space, index_byte}
use gost_x.Assoc.{Assoc}
use gost_x.Net.{Ip, to4, parse_ip}
use gost_x.Resolver.Cache.{Item, load, store}

-- dns.RR in the answer of a message, with its Ttl in seconds.
pub data Rr : Type 0 where
  aaaa : Ip → ℕ → Rr
  a : Ip → ℕ → Rr
  other : ℕ → Rr

pub data Qtype : Type 0 where
  type_a type_aaaa : Qtype

-- A query: the name, the type, and the subnet option with its family, mask and address, which may be
-- nil.
pub record Query : Type 0 where
  pub name : Text
  pub qtype : Qtype
  pub subnet : Option (ℕ × ℕ × Option Ip)

-- miekg/dns over messages M, and an exchanger X in a world with states S and errors E: Fqdn, the
-- strings of the class and of the types, Pack, Unpack, the answers of a message, Exchange, and the time
-- in nanoseconds.
pub record Dns (M X S E : Type 0) : Type 0 where
  pub fqdn : Text → Text
  pub class_inet : Text
  pub type_string : Qtype → Text
  pub pack : Query → E ⊎ List ℕ
  pub unpack : List ℕ → E ⊎ M
  pub answer : M → List Rr
  pub ask : X → List ℕ → S → (E ⊎ List ℕ) × S
  pub clock : S → ℕ

-- NameServer, without its chain, which only its exchanger uses.
pub record NameServer (X : Type 0) : Type 0 where
  pub addr : Text
  pub ttl : ℕ
  pub client_ip : Option Ip
  pub prefer : Text
  pub exchanger : X

-- The loop of NewResolver. exchanger.NewExchanger gives an exchanger for an address, or fails.
unfoldable pub new_servers :
    {X Y : Type 0} → (Text → NameServer Y → Option X) → List (NameServer Y) → List (NameServer X)
new_servers new_exchanger [] = []
new_servers new_exchanger (s ∷ ss) =
    let rest = new_servers new_exchanger ss in
    let addr = trim_space s.addr in
    if is_empty addr then rest else elim (new_exchanger addr s) [
      | none ↦ rest
      | some x ↦
          record {
            addr = s.addr;
            ttl = s.ttl;
            client_ip = s.client_ip;
            prefer = s.prefer;
            exchanger = x;
          }
          ∷ rest
    ]

-- AddSubnetOpt. In the branch for an address that is no IPv4 address, `ip` is the result of To4, so that
-- To16 is called on nil and gives nil.
unfoldable pub add_subnet_opt : Option Ip → Query → Query
add_subnet_opt none q = q
add_subnet_opt (some ip) q = elim (to4 ip) [
  | some v4 ↦ record q { subnet = some (1, 24, some v4) }
  | none ↦ record q { subnet = some (2, 128, none) }
]

unfoldable pub rr_ttl : Rr → ℕ
rr_ttl (aaaa ip ttl) = ttl
rr_ttl (a ip ttl) = ttl
rr_ttl (other ttl) = ttl

-- The loop over the answers in resolveIPs.
unfoldable pub ips_of : List Rr → List Ip
ips_of [] = []
ips_of (aaaa ip ttl ∷ rs) = ip ∷ ips_of rs
ips_of (a ip ttl ∷ rs) = ip ∷ ips_of rs
ips_of (other ttl ∷ rs) = ips_of rs

-- The name that is asked for: with the domain, if it has no dot.
unfoldable pub with_domain : Text → Text → Text
with_domain domain host =
    if not (is_empty domain) && not (is_some (index_byte b'.' host))
    then host ++ codes "." ++ domain
    else host

module _ {M X S E : Type 0} (dns : Dns M X S E) where
  -- The cache of the resolver, and the world.
  abbrev pub World : Type 0
  World = Assoc (Item M) × S

  abbrev pub Answer : Type 0
  Answer = (List Ip × Option E) × World

  -- NewCacheKey
  unfoldable pub new_cache_key : Query → Text
  new_cache_key q = q.name ++ dns.class_inet ++ codes "." ++ dns.type_string q.qtype

  -- (*resolver).exchange
  unfoldable pub exchange : X → Query → S → (E ⊎ M) × S
  exchange x q s = elim (dns.pack q) [
    | inl e ↦ (inl e, s)
    | inr query ↦
        let (reply, s') = dns.ask x query s in
        elim reply [ inl e ↦ (inl e, s') | inr bytes ↦ (dns.unpack bytes, s') ]
  ]

  abbrev pub ttls_of : M → List ℕ
  ttls_of mr = map rr_ttl (dns.answer mr)

  -- The branch of resolveIPs for a question that is not in the cache.
  unfoldable pub ask_server : NameServer X → Query → World → Answer
  ask_server server q (c, s) =
      let (r, s') = exchange server.exchanger (add_subnet_opt server.client_ip q) s in
      elim r [
        | inl e ↦ (([], some e), (c, s'))
        | inr mr ↦ (
          (ips_of (dns.answer mr), none),
          (store ttls_of (dns.clock s') (new_cache_key q) (some mr) server.ttl c, s'),
        )
      ]

  unfoldable pub resolve_ips : NameServer X → Query → World → Answer
  resolve_ips server q (c, s) =
      let (mr, c') = load (dns.clock s) (new_cache_key q) c in
      elim mr [
        | some m ↦ ((ips_of (dns.answer m), none), (c', s))
        | none ↦ ask_server server q (c', s)
      ]

  -- SetQuestion, of resolve4 and resolve6.
  abbrev pub question : Qtype → Text → Query
  question t host = record { name = dns.fqdn host; qtype = t; subnet = none }

  unfoldable pub resolve4 : NameServer X → Text → World → Answer
  resolve4 server host w = resolve_ips server (question type_a host) w

  unfoldable pub resolve6 : NameServer X → Text → World → Answer
  resolve6 server host w = resolve_ips server (question type_aaaa host) w

  -- The second lookup, for a first one without addresses.
  unfoldable pub or_next : (World → Answer) → Answer → Answer
  or_next next r = let second = next r.1 in if is_empty r.0.0 then second else r

  -- (*resolver).resolve
  unfoldable pub resolve_server : NameServer X → Text → World → Answer
  resolve_server server host w =
      if eq_text server.prefer (codes "ipv6")
      then or_next (resolve4 server host) (resolve6 server host w)
      else or_next (resolve6 server host) (resolve4 server host w)

  -- The loop over the servers, with the result of the round before.
  unfoldable pub resolve_servers : List (NameServer X) → Text → Answer → Answer
  resolve_servers [] host r = r
  resolve_servers (s ∷ ss) host r =
      let r' = resolve_server s host r.1 in
      let rest = resolve_servers ss host r' in
      if not (is_some r'.0.1) && not (is_empty r'.0.0) then r' else rest

  -- Resolve, for the domain of the options.
  unfoldable pub resolve : List (NameServer X) → Text → Text → World → Answer
  resolve servers domain host w = elim (parse_ip host) [
    | some ip ↦ ((ip ∷ [], none), w)
    | none ↦ resolve_servers servers (with_domain domain host) (([], none), w)
  ]
