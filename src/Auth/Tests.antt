-- ===== src/Auth/Tests.antt =====
-- Authenticators on concrete tables.
use gost_x.Prelude.{◌≡◌, refl, true, false, none, some, [], ◌∷◌, ◌++◌}
use gost_x.Text.{Text, codes}
use gost_x.Code.{text_code, table_code}
use gost_x.Assoc.{Assoc}
use gost_x.Loader.{Loader, no_loaders}
use gost_x.Auth.{
  Options, Authenticator, add_line, add_lines, parse_auths, write_all, write_parsed, load_file,
  load_redis, load_http, load, reload, authenticate,
}
use gost_x.Auth.Table.{authenticate-reload}
use gost_x.Auth.Loading.{load_redis_unread}

abbrev file : Loader
file = record {
  lists = none;
  maps = none;
  loads = λ t. some (codes "# users" ∷ codes "ann\tsecret word" ∷ codes "guest" ∷ []);
}

abbrev options : Options
options = record {
  auths = (codes "ann", codes "old") ∷ (codes "bob", codes "b") ∷ [];
  loaders = record no_loaders { file = some file };
  period = 0;
}

abbrev loaded : Assoc Text
loaded = (codes "ann", codes "secret word") ∷ (codes "guest", []) ∷ []

abbrev made : Authenticator
made = record {
  kvs = (codes "ann", codes "secret word") ∷ (codes "bob", codes "b") ∷ (codes "guest", []) ∷ [];
  options = options;
  cancelled = false;
}

reload-made : reload options false 0 ≡ some made
unfolding table_code add_line add_lines parse_auths write_all write_parsed load_file load_redis
    load_http load reload
reload-made = refl

load-loaded : load options.loaders 0 ≡ some (some loaded)
unfolding table_code add_line add_lines parse_auths write_all write_parsed load_file load_redis
    load_http load
load-loaded = refl

authenticate-reload_example : authenticate (some made) (codes "guest") (codes "x") ≡ true
unfolding text_code
authenticate-reload_example =
    authenticate-reload options false 0 (some loaded) made (codes "guest") (codes "x") load-loaded
      (refl, (refl, tt)) (refl, (refl, tt)) reload-made

abbrev redis : Text → Loader
redis password = record {
  lists = none;
  maps = none;
  loads = λ t. some ((codes "eve " ++ password) ∷ []);
}

abbrev mapping : Loader
mapping = record { lists = none; maps = some (λ t. some []); loads = λ t. none }

load_redis_unread_example :
    load (record { file = some mapping; redis = some (redis (codes "a")); http = none }) 0
    ≡ load (record { file = some mapping; redis = some (redis (codes "b")); http = none }) 0
load_redis_unread_example =
    load_redis_unread mapping (redis (codes "a")) (redis (codes "b")) none 0 (λ t. some []) refl
