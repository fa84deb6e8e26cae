-- ===== src/Resolver/Servers/Tests.antt =====
-- Name servers whose reply does not depend on the question: bytes, each of which stands for an address.
use gost_x.Prelude.{
  ℕ, suc, ◌≡◌, ◌≢◌, ◌⊎◌, inl, refl, sym, ◌∙◌, Option, Option-cases, none, some, List, [], ◌∷◌, ◌++◌,
  map, arith, inr,
}
use gost_x.Text.{Text, codes, eq_text, index_byte}
use gost_x.Code.{net_code}
use gost_x.Net.{Ip, parse_ip}
use gost_x.Int64.{gt64}
use gost_x.Assoc.{lookup_nil}
use gost_x.Resolver.Cache.{Item, load, store, least_ttl, lifetime}
use gost_x.Resolver.Servers.{
  a, Qtype, type_a, type_aaaa, Query, Dns, NameServer, add_subnet_opt, rr_ttl, ips_of,
  new_cache_key, exchange, ask_server, resolve_ips, question, resolve4, resolve6, or_next,
  resolve_server, resolve_servers, with_domain, resolve,
}
use gost_x.Resolver.Servers.Answers.{IsResolved, resolve-IsAnswered}
use gost_x.Resolver.Servers.Shadowed.{resolve-first_empty}

type_name : Qtype → Text
type_name type_a = codes "A"
type_name type_aaaa = codes "AAAA"

-- Pack fails for a subnet option without an address.
pack_query : Query → Text ⊎ List ℕ
pack_query q = elim q.subnet [
  | none ↦ inr q.name
  | some (family, mask, address) ↦ elim address [
    | none ↦ inl (codes "bad address")
    | some ip ↦ inr q.name
  ]
]

-- The world counts the questions.
dns : Dns (List ℕ) (List ℕ) ℕ Text
unfolding type_name
dns = record {
  fqdn = λ s. s ++ codes ".";
  class_inet = codes "IN";
  type_string = type_name;
  pack = pack_query;
  unpack = λ bytes. inr bytes;
  answer = λ m. map (λ b. a (b ∷ []) 60) m;
  ask = λ x query s. (inr x, suc s);
  clock = λ s. 0;
}

server : List ℕ → NameServer (List ℕ)
server x = record { addr = codes "1.1.1.1"; ttl = 0; client_ip = none; prefer = []; exchanger = x }

ask_two : List ℕ → List ℕ → List Ip × ℕ
unfolding net_code eq_text index_byte load store least_ttl lifetime add_subnet_opt rr_ttl ips_of
    new_cache_key exchange ask_server resolve_ips resolve4 resolve6 or_next resolve_server
    resolve_servers with_domain resolve gt64 dns pack_query server
ask_two x y =
    let r = resolve dns (server x ∷ server y ∷ []) (codes "org") (codes "host") ([], 0) in
    (r.0.0, r.1.1)

-- The second server has an address, and is not asked.
ask_two_empty : ask_two [] (9 ∷ []) ≡ ([], 2)
unfolding ask_two
ask_two_empty = refl

ask_two_first : ask_two (7 ∷ []) (9 ∷ []) ≡ ((7 ∷ []) ∷ [], 1)
unfolding ask_two
ask_two_first = refl

name_host : parse_ip (codes "a.b") ≡ none
unfolding net_code
name_host = refl

different_keys :
    new_cache_key dns (question dns type_a (codes "a.b"))
    ≢ new_cache_key dns (question dns type_aaaa (codes "a.b"))
unfolding new_cache_key dns
different_keys e = absurd cc

resolve-first_empty_example :
    ((resolve dns (server [] ∷ server (9 ∷ []) ∷ []) [] (codes "a.b") ([], 0)).0 ≡ ([], none))
    × ((resolve dns (server [] ∷ server (9 ∷ []) ∷ []) [] (codes "a.b") ([], 0)).1.1 ≡ 2)
unfolding with_domain add_subnet_opt exchange ips_of eq_text gt64 dns pack_query server
resolve-first_empty_example =
    resolve-first_empty dns (server []) (server (9 ∷ []) ∷ []) [] (codes "a.b") 0 1 2 [] []
      name_host different_keys refl refl refl refl refl refl (omega arith)

abbrev IsNine : Text → List ℕ → Type 0
IsNine k m = m ≡ 9 ∷ []

-- The address ::1 and 10.0.0.1, as addresses of the client.
with_client : List ℕ → NameServer (List ℕ)
unfolding server
with_client ip = record (server (9 ∷ [])) { client_ip = some ip }

ask_for_client : List ℕ → (List Ip × Option Text) × ℕ
unfolding net_code eq_text index_byte load store least_ttl lifetime add_subnet_opt rr_ttl ips_of
    new_cache_key exchange ask_server resolve_ips resolve4 resolve6 or_next resolve_server
    resolve_servers with_domain resolve gt64 dns pack_query with_client server
ask_for_client ip =
    let r = resolve dns (with_client ip ∷ []) (codes "org") (codes "host") ([], 0) in (r.0, r.1.1)

-- With an IPv6 address of the client, no question is sent.
ask_for_clients :
    (ask_for_client (10 ∷ 0 ∷ 0 ∷ 1 ∷ []) ≡ (((9 ∷ []) ∷ [], none), 1))
    × (ask_for_client (0 ∷ 0 ∷ 0 ∷ 0 ∷ 0 ∷ 0 ∷ 0 ∷ 0 ∷ 0 ∷ 0 ∷ 0 ∷ 0 ∷ 0 ∷ 0 ∷ 0 ∷ 1 ∷ [])
        ≡ (([], some (codes "bad address")), 0))
unfolding ask_for_client
ask_for_clients = (refl, refl)

server-IsSound :
    (q : Query) (s : ℕ) (m : List ℕ)
    → (exchange dns (server (9 ∷ [])).exchanger (add_subnet_opt (server (9 ∷ [])).client_ip q) s).0
      ≡ inr m
    → IsNine (new_cache_key dns q) m
unfolding exchange add_subnet_opt dns pack_query server
server-IsSound q s m e = elim (Option-cases q.subnet) [
  | inl n ↦ cc
  | inr ((family, mask, address), n) ↦ elim (Option-cases address) [
    | inl i ↦ absurd cc
    | inr (ip, i) ↦ cc
  ]
]

empty_cache : (k : Text) (item : Item (List ℕ)) → none ≡ some item → IsNine k item.msg
empty_cache k item e = absurd cc

resolve-IsAnswered_example :
    IsResolved dns IsNine
      (parse_ip (codes "host"))
      (with_domain (codes "org") (codes "host"))
      ([], 0)
      (resolve dns (server (9 ∷ []) ∷ []) (codes "org") (codes "host") ([], 0))
resolve-IsAnswered_example =
    resolve-IsAnswered dns IsNine (server (9 ∷ []) ∷ []) (codes "org") (codes "host") ([], 0)
      (server-IsSound, tt)
      (λ k item e. empty_cache k item (sym (lookup_nil {V = Item (List ℕ)} k) ∙ e))
