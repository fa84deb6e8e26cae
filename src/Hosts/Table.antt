-- ===== src/Hosts/Table.antt =====
-- The table that the mappings make.
use gost_x.Prelude.{
  ℕ, ◌≡◌, refl, sym, ◌∙◌, ap, Bool, false, some, Bool-cases, subst, inl, inr, List, [], ◌∷◌, ◌++◌,
  map, any, if◌then◌else◌, arith, All,
}
use gost_x.Text.{Text, eq_text}
use gost_x.Text.Laws.{eq_text_iff}
use gost_x.Text.Words.{IsWord, unwords, line_fields-unwords}
use gost_x.Assoc.{Assoc, lookup, lookup-insert}
use gost_x.Net.{Ip, parse_ip, ip_equal}
use gost_x.Hosts.{
  Mapping, Options, parse_line, ips_of, add_ip, add_mapping, add_mappings, load, reload,
}

-- The addresses of a host in the order of the mappings, an equal one not twice.
abbrev pub gather : Text → List Ip → List Mapping → List Ip
gather h ips [] = ips
gather h ips (m ∷ ms) = gather h (if eq_text m.hostname h then add_ip m.ip ips else ips) ms

ips_of-add_mapping :
    (h : Text) (m : Mapping) (table : Assoc (List Ip))
    → ips_of h (add_mapping m table)
      ≡ (if eq_text m.hostname h then add_ip m.ip (ips_of m.hostname table) else ips_of h table)
unfolding ips_of add_mapping
ips_of-add_mapping h m table =
    ground (arith, lookup-insert m.hostname h (add_ip m.ip (ips_of m.hostname table)) table)

same_host :
    (h : Text) (m : Mapping) (table : Assoc (List Ip))
    → ips_of h (add_mapping m table)
      ≡ (if eq_text m.hostname h then add_ip m.ip (ips_of h table) else ips_of h table)
same_host h m table = ground (arith, ips_of-add_mapping h m table, eq_text_iff m.hostname h)

ips_of-add_mappings :
    (h : Text) (ms : List Mapping) (table : Assoc (List Ip))
    → ips_of h (add_mappings ms table) ≡ gather h (ips_of h table) ms
unfolding add_mappings
ips_of-add_mappings h [] table = refl
ips_of-add_mappings h (m ∷ ms) table =
    ips_of-add_mappings h ms (add_mapping m table)
    ∙ ap (λ ips. gather h ips ms) (same_host h m table)

gather-append :
    (h : Text) (ips : List Ip) (ms ns : List Mapping)
    → gather h ips (ms ++ ns) ≡ gather h (gather h ips ms) ns
gather-append h ips [] ns = refl
gather-append h ips (m ∷ ms) ns =
    gather-append h (if eq_text m.hostname h then add_ip m.ip ips else ips) ms ns

ips_of-empty : (h : Text) → ips_of h [] ≡ []
unfolding ips_of lookup
ips_of-empty h = refl

-- After a reload a host has the addresses of its configured and then of its loaded mappings, in that
-- order, an address that equals an earlier one left out.
ips_of-reload :
    (o : Options) (c : Bool) (t : ℕ) (h : Text)
    → ips_of h (reload o c t).mappings ≡ gather h [] (o.mappings ++ load o.loaders t)
unfolding reload
ips_of-reload o c t h =
    ips_of-add_mappings h (load o.loaders t) (add_mappings o.mappings [])
    ∙ ap (λ ips. gather h ips (load o.loaders t)) (ips_of-add_mappings h o.mappings [])
    ∙ ap (λ ips. gather h (gather h ips o.mappings) (load o.loaders t)) (ips_of-empty h)
    ∙ sym (gather-append h [] o.mappings (load o.loaders t))

-- No address equals, as net.IP, one before it.
abbrev pub Distinct : List Ip → Type 0
Distinct [] = Unit
Distinct (i ∷ is) = (any (λ j. ip_equal j i) is ≡ false) × Distinct is

any-append {ℓ} :
    {A : Type ℓ} (p : A → Bool) (xs : List A) (x : A)
    → p x ≡ false
    → any p xs ≡ false
    → any p (xs ++ x ∷ []) ≡ false
any-append p [] x h k = ground arith
any-append p (y ∷ xs) x h k = ground (arith, any-append p xs x h)

Distinct-append :
    (ips : List Ip) (ip : Ip)
    → Distinct ips
    → any (λ i. ip_equal ip i) ips ≡ false
    → Distinct (ips ++ ip ∷ [])
Distinct-append [] ip h k = (refl, tt)
Distinct-append (i ∷ is) ip h k = (
  any-append (λ j. ip_equal j i) is ip (ground arith) h.0,
  Distinct-append is ip h.1 (ground arith),
)

Distinct-add_ip : (ip : Ip) (ips : List Ip) → Distinct ips → Distinct (add_ip ip ips)
unfolding add_ip
Distinct-add_ip ip ips h = elim (Bool-cases (any (λ i. ip_equal ip i) ips)) [
  | inl e ↦ rw e h
  | inr e ↦ rw e (Distinct-append ips ip h e)
]

Distinct-gather :
    (h : Text) (ips : List Ip) (ms : List Mapping) → Distinct ips → Distinct (gather h ips ms)
Distinct-gather h ips [] d = d
Distinct-gather h ips (m ∷ ms) d = elim (Bool-cases (eq_text m.hostname h)) [
  | inl e ↦ rw e (Distinct-gather h (add_ip m.ip ips) ms (Distinct-add_ip m.ip ips d))
  | inr e ↦ rw e (Distinct-gather h ips ms d)
]

-- After a reload no host has two equal addresses, whatever the mappings and the loaded files say.
reload-Distinct :
    (o : Options) (c : Bool) (t : ℕ) (h : Text) → Distinct (ips_of h (reload o c t).mappings)
reload-Distinct o c t h =
    subst Distinct (sym (ips_of-reload o c t h))
      (Distinct-gather h [] (o.mappings ++ load o.loaders t) tt)

-- After a reload a host has the addresses of its configured and then of its loaded mappings, in that
-- order, an address that equals an earlier one left out, so that no two of them are equal.
pub reload-ips_of :
    (o : Options) (c : Bool) (t : ℕ) (h : Text)
    → (ips_of h (reload o c t).mappings ≡ gather h [] (o.mappings ++ load o.loaders t))
      × Distinct (ips_of h (reload o c t).mappings)
reload-ips_of o c t h = (ips_of-reload o c t h, reload-Distinct o c t h)

-- A line of an IP address and one or more names maps each of the names to the address.
pub parse_line-unwords :
    (a h : Text) (hs : List Text) (ip : Ip)
    → IsWord a
    → IsWord h
    → All IsWord hs
    → parse_ip a ≡ some ip
    → parse_line (unwords (a ∷ h ∷ hs)) ≡ map (λ v. record { hostname = v; ip = ip }) (h ∷ hs)
unfolding parse_line
parse_line-unwords a h hs ip wa wh whs p =
    ground (arith, line_fields-unwords a (h ∷ hs) wa (wh, whs))
