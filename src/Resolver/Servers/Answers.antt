-- ===== src/Resolver/Servers/Answers.antt =====
-- Where the addresses come from that the resolver returns.
use gost_x.Prelude.{
  ◌≡◌, refl, subst, false, not, ◌&&◌, Bool-cases, inl, inr, Option, none, some, Option-cases, List,
  [], ◌∷◌, All, is_empty, is_some, ◌⊎◌,
}
use gost_x.Text.{Text, codes, eq_text}
use gost_x.Net.{Ip, parse_ip}
use gost_x.Resolver.Cache.{load}
use gost_x.Resolver.Servers.{
  type_a, type_aaaa, Query, Dns, NameServer, add_subnet_opt, ips_of, World, Answer, new_cache_key,
  exchange, ttls_of, ask_server, resolve_ips, question, resolve4, resolve6, or_next, resolve_server,
  resolve_servers, with_domain, resolve,
}
use gost_x.Resolver.Servers.Kept.{AllItems, load-IsLoaded, store-AllItems, sum-cases}

module _ {M X S E : Type 0} (dns : Dns M X S E) (Good : Text → M → Type 0) where
  -- A server whose answers are good for the key of the question.
  abbrev pub IsSound : NameServer X → Type 0
  IsSound server =
      (q : Query) (s : S) (m : M)
      → (exchange dns server.exchanger (add_subnet_opt server.client_ip q) s).0 ≡ inr m
      → Good (new_cache_key dns q) m

  -- The addresses of a good message for one of two keys, or none.
  abbrev pub AreAnswered : Text → Text → List Ip → Type 0
  AreAnswered k j ips =
      (ips ≡ []) ⊎ ((m : M) × (Good k m ⊎ Good j m) × (ips ≡ ips_of (dns.answer m)))

  pub record IsAnswered (k j : Text) (r : Answer dns) : Type 0 where
    pub items : AllItems Good r.1.0
    pub answered : AreAnswered k j r.0.0
    pub no_error : is_empty r.0.0 ≡ false → r.0.1 ≡ none

  ask_server-IsAnswered :
      (server : NameServer X) (q : Query) (w : World dns)
      → IsSound server
      → AllItems Good w.0
      → IsAnswered (new_cache_key dns q) (new_cache_key dns q) (ask_server dns server q w)
  unfolding ask_server
  ask_server-IsAnswered server q w sound h =
      let r = exchange dns server.exchanger (add_subnet_opt server.client_ip q) w.1 in
      elim (sum-cases r.0) [
        | inl (e, f) ↦
            rw (f, ask_server)
              (record { items = h; answered = inl refl; no_error = λ n. absurd cc })
        | inr (m, f) ↦
            rw (f, ask_server)
              (record {
                items =
                    store-AllItems Good (ttls_of dns) (dns.clock r.1) (new_cache_key dns q) m
                      server.ttl w.0 (sound q w.1 m f) h;
                answered = inr (m, inl (sound q w.1 m f), refl);
                no_error = λ n. refl;
              })
      ]

  resolve_ips-IsAnswered :
      (server : NameServer X) (q : Query) (w : World dns)
      → IsSound server
      → AllItems Good w.0
      → IsAnswered (new_cache_key dns q) (new_cache_key dns q) (resolve_ips dns server q w)
  unfolding resolve_ips
  resolve_ips-IsAnswered server q w sound h =
      let key = new_cache_key dns q in
      let r = load (dns.clock w.1) key w.0 in
      let is = load-IsLoaded Good (dns.clock w.1) key w.0 h in
      elim (Option-cases r.0) [
        | inl e ↦ rw (e, resolve_ips) (ask_server-IsAnswered server q (r.1, w.1) sound is.items)
        | inr (m, e) ↦
            rw (e, resolve_ips)
              (record {
                items = is.items;
                answered = inr (m, inl (is.found m e), refl);
                no_error = λ n. refl;
              })
      ]

  either : (m : M) (i : Text) → Good i m ⊎ Good i m → Good i m
  either m i (inl g) = g
  either m i (inr g) = g

  widen :
      (k j i : Text) (ips : List Ip) → (i ≡ k) ⊎ (i ≡ j) → AreAnswered i i ips → AreAnswered k j ips
  widen k j i ips (inl e) (inl n) = inl n
  widen k j i ips (inr e) (inl n) = inl n
  widen k j i ips (inl e) (inr (m, g, q)) = inr (m, inl (subst (λ y. Good y m) e (either m i g)), q)
  widen k j i ips (inr e) (inr (m, g, q)) = inr (m, inr (subst (λ y. Good y m) e (either m i g)), q)

  or_next-IsAnswered :
      (k j i i' : Text) (next : World dns → Answer dns) (r : Answer dns)
      → (i ≡ k) ⊎ (i ≡ j)
      → (i' ≡ k) ⊎ (i' ≡ j)
      → IsAnswered i i r
      → ((w : World dns) → AllItems Good w.0 → IsAnswered i' i' (next w))
      → IsAnswered k j (or_next dns next r)
  unfolding or_next
  or_next-IsAnswered k j i i' next r e e' h f = elim (Bool-cases (is_empty r.0.0)) [
    | inl n ↦
        let h' = f r.1 h.items in
        rw n (record {
          items = h'.items;
          answered = widen k j i' (next r.1).0.0 e' h'.answered;
          no_error = h'.no_error;
        })
    | inr n ↦ rw n (record {
      items = h.items;
      answered = widen k j i r.0.0 e h.answered;
      no_error = h.no_error;
    })
  ]

  module _ (host : Text) where
    abbrev pub key4 : Text
    key4 = new_cache_key dns (question dns type_a host)

    abbrev pub key6 : Text
    key6 = new_cache_key dns (question dns type_aaaa host)

    resolve_server-IsAnswered :
        (server : NameServer X) (w : World dns)
        → IsSound server
        → AllItems Good w.0
        → IsAnswered key4 key6 (resolve_server dns server host w)
    unfolding resolve_server resolve4 resolve6
    resolve_server-IsAnswered server w sound h =
        let q4 = question dns type_a host in
        let q6 = question dns type_aaaa host in
        elim (Bool-cases (eq_text server.prefer (codes "ipv6"))) [
          | inl e ↦ rw e (
              or_next-IsAnswered key4 key6 key6 key4 (resolve_ips dns server q4)
                (resolve_ips dns server q6 w) (inr refl) (inl refl)
                (resolve_ips-IsAnswered server q6 w sound h)
                (λ v. resolve_ips-IsAnswered server q4 v sound))
          | inr e ↦ rw e (
              or_next-IsAnswered key4 key6 key4 key6 (resolve_ips dns server q6)
                (resolve_ips dns server q4 w) (inl refl) (inr refl)
                (resolve_ips-IsAnswered server q4 w sound h)
                (λ v. resolve_ips-IsAnswered server q6 v sound))
        ]

    resolve_servers-IsAnswered :
        (servers : List (NameServer X)) (r : Answer dns)
        → All IsSound servers
        → IsAnswered key4 key6 r
        → IsAnswered key4 key6 (resolve_servers dns servers host r)
    unfolding resolve_servers
    resolve_servers-IsAnswered [] r sound h = h
    resolve_servers-IsAnswered (s ∷ ss) r sound h =
        let r' = resolve_server dns s host r.1 in
        let h' = resolve_server-IsAnswered s r.1 sound.0 h.items in
        elim (Bool-cases (not (is_some r'.0.1) && not (is_empty r'.0.0))) [
          | inl e ↦ rw e h'
          | inr e ↦ rw e (resolve_servers-IsAnswered ss r' sound.1 h')
        ]

  -- What Resolve returns for a host that is an IP address, or a name.
  pub IsResolved : Option Ip → Text → World dns → Answer dns → Type 0
  IsResolved (some ip) name w r = r ≡ ((ip ∷ [], none), w)
  IsResolved none name w r = IsAnswered (key4 name) (key6 name) r

  -- Every address that Resolve returns for a name is in one message: one that the cache had, or one
  -- that a server gave, for the question for IPv4 or for IPv6 addresses of the name, with the domain if
  -- the name has no dot. What holds of all messages of the servers for a question holds of those that
  -- are in the cache afterwards. With addresses there is no error. An IP address is returned as it is.
  pub resolve-IsAnswered :
      (servers : List (NameServer X)) (domain host : Text) (w : World dns)
      → All IsSound servers
      → AllItems Good w.0
      → IsResolved (parse_ip host) (with_domain domain host) w (resolve dns servers domain host w)
  unfolding resolve IsResolved
  resolve-IsAnswered servers domain host w sound h = elim (Option-cases (parse_ip host)) [
    | inr (ip, e) ↦ rw (e, resolve) refl
    | inl e ↦
        rw (e, resolve)
          (resolve_servers-IsAnswered (with_domain domain host) servers (([], none), w) sound
            (record { items = h; answered = inl refl; no_error = λ n. refl }))
  ]
