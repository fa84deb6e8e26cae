-- ===== src/Resolver/Servers/Shadowed.antt =====
-- An answer without addresses hides the further servers, since the cache does not know which server an
-- answer is from.
use gost_x.Prelude.{
  ℕ, ◌-◌, ◌≤◌, ◌≡◌, ◌≢◌, refl, false, Bool-cases, inl, inr, none, some, List, [], ◌∷◌, ◌++◌,
  is_empty, ltb, arith,
}
use gost_x.Text.{Text, codes, eq_text}
use gost_x.Text.Laws.{eq_text_iff, eq_text_refl}
use gost_x.Assoc.{Assoc, lookup, insert, lookup-insert, lookup-insert_self, lookup_nil}
use gost_x.Net.{parse_ip}
use gost_x.Int64.{gt64}
use gost_x.Resolver.Cache.{Item, lifetime, load, store}
use gost_x.Resolver.Servers.{
  type_a, type_aaaa, Query, Dns, NameServer, add_subnet_opt, ips_of, World, new_cache_key, exchange,
  ttls_of, ask_server, resolve_ips, question, resolve4, resolve6, or_next, resolve_server,
  resolve_servers, with_domain, resolve,
}

module _ {M : Type 0} where
  load_missing :
      (now : ℕ) (k : Text) (c : Assoc (Item M)) → lookup k c ≡ none → load now k c ≡ (none, c)
  unfolding load
  load_missing now k c e = rw (e, load) refl

  load_kept :
      (now : ℕ) (k : Text) (c : Assoc (Item M)) (item : Item M)
      → lookup k c ≡ some item
      → ltb item.ttl (now - item.ts) ≡ false
      → load now k c ≡ (some item.msg, c)
  unfolding load
  load_kept now k c item e f = rw (e, f, load) refl

  abbrev stored : (M → List ℕ) → ℕ → M → ℕ → Item M
  stored ttls now m ttl = record { msg = m; ts = now; ttl = lifetime ttl (ttls m) }

  store-insert :
      (ttls : M → List ℕ) (now : ℕ) (k : Text) (m : M) (ttl : ℕ) (c : Assoc (Item M))
      → is_empty k ≡ false
      → gt64 0 ttl ≡ false
      → store ttls now k (some m) ttl c ≡ insert k (stored ttls now m ttl) c
  unfolding store
  store-insert ttls now k m ttl c e f = ground arith

is_empty_dot : (r s t : Text) → is_empty (r ++ s ++ codes "." ++ t) ≡ false
is_empty_dot [] [] t = refl
is_empty_dot [] (x ∷ s) t = refl
is_empty_dot (x ∷ r) s t = refl

module _ {M X S E : Type 0} (dns : Dns M X S E) where
  key-is_empty : (q : Query) → is_empty (new_cache_key dns q) ≡ false
  unfolding new_cache_key
  key-is_empty q = is_empty_dot q.name dns.class_inet (dns.type_string q.qtype)

  -- A cache that has a message without addresses for a question, at the time of the world.
  HasNone : Query → World dns → Type 0
  HasNone q w =
      (m : M) × (load (dns.clock w.1) (new_cache_key dns q) w.0 ≡ (some m, w.0))
      × (ips_of (dns.answer m) ≡ [])

  resolve_ips-HasNone :
      (server : NameServer X) (q : Query) (w : World dns)
      → HasNone q w
      → resolve_ips dns server q w ≡ (([], none), w)
  unfolding resolve_ips HasNone
  resolve_ips-HasNone server q (c, s) (m, e, n) = ground (arith, e, n)

  module _ (host : Text) (w : World dns) (h4 : HasNone (question dns type_a host) w)
      (h6 : HasNone (question dns type_aaaa host) w) where
    resolve_server-HasNone :
        (server : NameServer X) → resolve_server dns server host w ≡ (([], none), w)
    unfolding resolve_server resolve4 resolve6 or_next
    resolve_server-HasNone server = elim (Bool-cases (eq_text server.prefer (codes "ipv6"))) [
      | inl e ↦
          rw
            (
              e,
              resolve_ips-HasNone server (question dns type_aaaa host) w h6,
              resolve_ips-HasNone server (question dns type_a host) w h4,
            )
            refl
      | inr e ↦
          rw
            (
              e,
              resolve_ips-HasNone server (question dns type_a host) w h4,
              resolve_ips-HasNone server (question dns type_aaaa host) w h6,
            )
            refl
    ]

    -- Whatever the servers are, none of them is asked.
    resolve_servers-HasNone :
        (servers : List (NameServer X))
        → resolve_servers dns servers host (([], none), w) ≡ (([], none), w)
    unfolding resolve_servers
    resolve_servers-HasNone [] = refl
    resolve_servers-HasNone (s ∷ ss) = rw (resolve_server-HasNone s) (resolve_servers-HasNone ss)

  abbrev kept : NameServer X → S → M → Item M
  kept server s m = stored (ttls_of dns) (dns.clock s) m server.ttl

  -- A question that the server answers without an address.
  resolve_ips-asked :
      (server : NameServer X) (q : Query) (c : Assoc (Item M)) (s s' : S) (m : M)
      → lookup (new_cache_key dns q) c ≡ none
      → exchange dns server.exchanger (add_subnet_opt server.client_ip q) s ≡ (inr m, s')
      → ips_of (dns.answer m) ≡ []
      → gt64 0 server.ttl ≡ false
      → resolve_ips dns server q (c, s)
        ≡ (([], none), (insert (new_cache_key dns q) (kept server s' m) c, s'))
  unfolding resolve_ips ask_server
  resolve_ips-asked server q c s s' m e f n p = ground (
    arith,
    load_missing (dns.clock s) (new_cache_key dns q) c e,
    f,
    n,
    store-insert (ttls_of dns) (dns.clock s') (new_cache_key dns q) m server.ttl c (key-is_empty q)
        p,
  )

  module _ (server : NameServer X) (host : Text) (s s4 s6 : S) (m4 m6 : M)
      (k : new_cache_key dns (question dns type_a host)
        ≢ new_cache_key dns (question dns type_aaaa host))
      (p : gt64 0 server.ttl ≡ false) (pref : eq_text server.prefer (codes "ipv6") ≡ false)
      (e4 : exchange dns server.exchanger
          (add_subnet_opt server.client_ip (question dns type_a host))
          s
        ≡ (inr m4, s4))
      (e6 : exchange dns server.exchanger
          (add_subnet_opt server.client_ip (question dns type_aaaa host))
          s4
        ≡ (inr m6, s6))
      (n4 : ips_of (dns.answer m4) ≡ []) (n6 : ips_of (dns.answer m6) ≡ [])
      (t : dns.clock s6 - dns.clock s4 ≤ lifetime server.ttl (ttls_of dns m4)) where
    abbrev both : Assoc (Item M)
    both =
        insert (new_cache_key dns (question dns type_aaaa host)) (kept server s6 m6)
          (insert (new_cache_key dns (question dns type_a host)) (kept server s4 m4) [])

    first_empty : resolve_server dns server host ([], s) ≡ (([], none), (both, s6))
    unfolding resolve_server resolve4 resolve6 or_next
    first_empty =
        let k4 = new_cache_key dns (question dns type_a host) in
        let k6 = new_cache_key dns (question dns type_aaaa host) in
        rw
          (
            pref,
            resolve_ips-asked server (question dns type_a host) [] s s4 m4 (lookup_nil k4) e4 n4 p,
            resolve_ips-asked server (question dns type_aaaa host)
                (insert k4 (kept server s4 m4) []) s4 s6 m6
                (ground (
                  arith,
                  lookup-insert k4 k6 (kept server s4 m4) [],
                  lookup_nil {V = Item M} k6,
                  eq_text_iff k4 k6,
                  k,
                ))
                e6 n6 p,
          )
          refl

    lookup-both :
        (lookup (new_cache_key dns (question dns type_a host)) both ≡ some (kept server s4 m4))
        × (lookup (new_cache_key dns (question dns type_aaaa host)) both ≡ some (kept server s6 m6))
    lookup-both =
        let k4 = new_cache_key dns (question dns type_a host) in
        let k6 = new_cache_key dns (question dns type_aaaa host) in
        let c = insert k4 (kept server s4 m4) [] in
        (
          ground (
            arith,
            lookup-insert k6 k4 (kept server s6 m6) c,
            lookup-insert k4 k4 (kept server s4 m4) [],
            eq_text_iff k6 k4,
            eq_text_refl k4,
            k,
          ),
          lookup-insert_self k6 (kept server s6 m6) c,
        )

    has4 : HasNone (question dns type_a host) (both, s6)
    unfolding HasNone
    has4 =
        (m4, load_kept (dns.clock s6) _ both (kept server s4 m4) lookup-both.0 (ground arith), n4)

    has6 : HasNone (question dns type_aaaa host) (both, s6)
    unfolding HasNone
    has6 =
        (m6, load_kept (dns.clock s6) _ both (kept server s6 m6) lookup-both.1 (ground arith), n6)

  resolve-name :
      (servers : List (NameServer X)) (domain host : Text) (w : World dns)
      → parse_ip host ≡ none
      → resolve dns servers domain host w
        ≡ resolve_servers dns servers (with_domain domain host) (([], none), w)
  unfolding resolve
  resolve-name servers domain host w e = ground arith

  -- If the first server answers both questions for a name, first that for IPv4 addresses, without an
  -- error and without an address, then Resolve returns no address and no error, and leaves the world as
  -- it was after these two questions: none of the further servers is asked, whatever they would answer.
  -- This is for a new resolver, a time to live that is not negative, and a second answer that comes
  -- before the first one expires.
  pub resolve-first_empty :
      (server : NameServer X) (servers : List (NameServer X)) (domain host : Text) (s s4 s6 : S)
      (m4 m6 : M)
      → let name = with_domain domain host in
        parse_ip host ≡ none
        → new_cache_key dns (question dns type_a name)
          ≢ new_cache_key dns (question dns type_aaaa name)
        → gt64 0 server.ttl ≡ false
        → eq_text server.prefer (codes "ipv6") ≡ false
        → exchange dns server.exchanger
            (add_subnet_opt server.client_ip (question dns type_a name))
            s
          ≡ (inr m4, s4)
        → exchange dns server.exchanger
            (add_subnet_opt server.client_ip (question dns type_aaaa name))
            s4
          ≡ (inr m6, s6)
        → ips_of (dns.answer m4) ≡ []
        → ips_of (dns.answer m6) ≡ []
        → dns.clock s6 - dns.clock s4 ≤ lifetime server.ttl (ttls_of dns m4)
        → ((resolve dns (server ∷ servers) domain host ([], s)).0 ≡ ([], none))
          × ((resolve dns (server ∷ servers) domain host ([], s)).1.1 ≡ s6)
  unfolding resolve_servers
  resolve-first_empty server servers domain host s s4 s6 m4 m6 q k p pref e4 e6 n4 n6 t =
      let name = with_domain domain host in
      let c = both server name s s4 s6 m4 m6 k p pref e4 e6 n4 n6 t in
      rw
        (
          resolve-name (server ∷ servers) domain host ([], s) q,
          first_empty server name s s4 s6 m4 m6 k p pref e4 e6 n4 n6 t,
          resolve_servers-HasNone name (c, s6)
              (has4 server name s s4 s6 m4 m6 k p pref e4 e6 n4 n6 t)
              (has6 server name s s4 s6 m4 m6 k p pref e4 e6 n4 n6 t) servers,
        )
        (refl, refl)
