-- ===== src/Registry/Wrappers/Tests.antt =====
-- An admission, a bypass and an authenticator that are exchanged under the name "a".
use gost_x.Prelude.{◌≡◌, refl, true, false, some, [], ◌∷◌}
use gost_x.Text.{Text, codes}
use gost_x.Code.{text_code, table_code}
use gost_x.Samples.{libs}
use gost_x.Admission
use gost_x.Admission.{Admission, admit}
use gost_x.Bypass
use gost_x.Bypass.{Bypass, contains}
use gost_x.Auth
use gost_x.Auth.{Authenticator, authenticate}
use gost_x.Registry.{registers, unregisters, unused, get, register, unregister, call, calls}
use gost_x.Registry.Wrappers.{
  wrap, wrappers, wrapper_list, wrapped_admit, wrapped_contains, wrapped_authenticate,
}
use gost_x.Registry.Wrappers.Swapped.{closes, exchanged, removed, wrapped-exchanged}

abbrev name : Text
name = codes "a"

abbrev addr : Text
addr = codes "10.0.0.1:80"

abbrev admission : Admission
admission =
    Admission.reload (record Admission.zero_options { matchers = codes "10.0.0.1" ∷ [] }) false 0

abbrev bypass : Bypass
bypass = record {
  ip_matcher = record { ips = (codes "10.0.0.1", tt) ∷ [] };
  cidr_matcher = record { ranger = [] };
  domain_matcher = record { domains = [] };
  wildcard_matcher = record { patterns = [] };
  options = Bypass.zero_options;
  cancelled = false;
}

abbrev ann : Authenticator
ann = record {
  kvs = (codes "ann", codes "secret") ∷ [];
  options = Auth.zero_options;
  cancelled = false;
}

abbrev bob : Authenticator
bob = record ann { kvs = (codes "bob", codes "b") ∷ [] }

-- The names that are not empty, whether or not they are registered.
two_wrappers : wrapper_list [] (codes "a" ∷ [] ∷ codes "b" ∷ []) ≡ codes "a" ∷ codes "b" ∷ []
unfolding wrap wrappers wrapper_list
two_wrappers = refl

bob_from_now_on :
    (wrapped_authenticate
        (exchanged name bob [] (calls closes (registers name ann ∷ []) unused)).entries
        name
        (codes "ann")
        (codes "secret")
      ≡ false)
    × (wrapped_authenticate
          (calls closes (registers name ann ∷ []) unused).entries
          name
          (codes "ann")
          (codes "secret")
        ≡ true)
unfolding table_code text_code get register unregister call calls authenticate wrapped_authenticate
bob_from_now_on = (refl, refl)

wrapped-exchanged_example :
    (wrapped_admit libs
        (exchanged name admission (registers (codes "b") admission ∷ []) unused).entries
        name
        addr
      ≡ admit libs (some admission) addr)
    × (wrapped_admit libs
          (removed name (registers (codes "b") admission ∷ []) unused).entries
          name
          addr
        ≡ false)
    × (wrapped_contains libs (exchanged name bypass [] unused).entries name addr
        ≡ contains libs (some bypass) addr)
    × (wrapped_contains libs (removed name [] unused).entries name addr ≡ false)
    × (wrapped_authenticate
          (exchanged name bob
            (unregisters (codes "b") ∷ [])
            (calls closes (registers name ann ∷ []) unused)).entries
          name
          (codes "ann")
          (codes "secret")
        ≡ authenticate (some bob) (codes "ann") (codes "secret"))
    × (wrapped_authenticate
          (removed name
            (unregisters (codes "b") ∷ [])
            (calls closes (registers name ann ∷ []) unused)).entries
          name
          (codes "ann")
          (codes "secret")
        ≡ true)
unfolding text_code
wrapped-exchanged_example =
    wrapped-exchanged libs name addr (codes "ann") (codes "secret") admission
      (registers (codes "b") admission ∷ []) unused bypass [] unused bob
      (unregisters (codes "b") ∷ []) (calls closes (registers name ann ∷ []) unused) refl (refl, tt)
      tt (refl, tt)
