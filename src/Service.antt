-- ===== src/Service.antt =====
-- service/service.go: a service accepts connections, records and tests their addresses, and gives them
-- to its handler. Metrics and loggers are left out.
pub mod Serving
pub mod Backoff
mod Tests
use gost_x.Prelude.{
  ℕ, ◌+◌, ◌*◌, Bool, true, false, not, Option, none, some, List, [], ◌∷◌, ◌++◌, map, select, ltb,
  ◌==◌, is_empty, if◌then◌else◌,
}
use gost_x.Text.{Text, trim_space}
use gost_x.Net.{strip_port}
use gost_x.Loader.{second}

-- options, without the logger. A recorder.RecorderObject is whether it is for the addresses of
-- clients, and its recorder, a number. An admission is its method Admit.
pub record Options : Type 0 where
  pub admission : Option (Text → Bool)
  pub recorders : List (Bool × ℕ)
  pub pre_up : List Text
  pub post_up : List Text
  pub pre_down : List Text
  pub post_down : List Text

-- The values of type Option, each by the function that makes it.
pub data Setting : Type 0 where
  admission_option : Option (Text → Bool) → Setting
  recorders_option : List (Bool × ℕ) → Setting
  pre_up_option pre_down_option post_up_option post_down_option : List Text → Setting

unfoldable pub apply : Setting → Options → Options
apply (admission_option a) o = record o { admission = a }
apply (recorders_option rs) o = record o { recorders = rs }
apply (pre_up_option cmds) o = record o { pre_up = cmds }
apply (pre_down_option cmds) o = record o { pre_down = cmds }
apply (post_up_option cmds) o = record o { post_up = cmds }
apply (post_down_option cmds) o = record o { post_down = cmds }

unfoldable pub apply_all : List Setting → Options → Options
apply_all [] o = o
apply_all (s ∷ ss) o = apply_all ss (apply s o)

abbrev pub zero_options : Options
zero_options = record {
  admission = none;
  recorders = [];
  pre_up = [];
  post_up = [];
  pre_down = [];
  post_down = [];
}

-- A connection, as its number and its remote address.
pub record Client : Type 0 where
  pub conn : ℕ
  pub addr : Text

-- What the service does to the world. `handles` starts a goroutine with the handler.
pub data Effect : Type 0 where
  runs : Text → Effect
  sleeps : ℕ → Effect
  records : ℕ → Text → Effect
  closes : Client → Effect
  handles : Client → Effect
  closes_handler closes_listener : Effect

-- What Accept of the listener returns; an error may be a temporary net.Error.
pub data Accepted (E : Type 0) : Type 0 where
  accepts : Client → Accepted E
  temporary : E → Accepted E
  permanent : E → Accepted E

abbrev filled : Text → Bool
filled cmd = not (is_empty cmd)

-- execCmds, as the commands that are run.
unfoldable pub exec_cmds : List Text → List Effect
exec_cmds cmds = map runs (select filled (map trim_space cmds))

-- NewService
unfoldable pub new_service : List Setting → Options × List Effect
new_service ss = let o = apply_all ss zero_options in (o, exec_cmds o.pre_up)

-- The delay after a temporary error.
unfoldable pub next_delay : ℕ → ℕ
next_delay temp_delay =
    let t = if temp_delay == 0 then 1 * second else temp_delay * 2 in
    let max = 5 * second in if ltb max t then max else t

-- The loop over the recorders.
unfoldable pub record_client : List (Bool × ℕ) → Text → List Effect
record_client [] addr = []
record_client ((is_client, rec) ∷ recs) addr =
    let rest = record_client recs addr in
    if is_client then records rec (strip_port addr) ∷ [] else rest

-- The test of the admission.
unfoldable pub deal : Option (Text → Bool) → Client → List Effect
deal none c = handles c ∷ []
deal (some admit) c = if not (admit c.addr) then closes c ∷ [] else handles c ∷ []

-- What is done with a connection.
unfoldable pub accept : Options → Client → List Effect
accept o c = record_client o.recorders c.addr ++ deal o.admission c

module _ {E : Type 0} where
  -- The loop of Serve over what Accept returns, with its delay: what it does, and the error that it
  -- returns, `none` if it still waits.
  unfoldable pub serve_loop : Options → ℕ → List (Accepted E) → List Effect × Option E
  serve_loop o temp_delay [] = ([], none)
  serve_loop o temp_delay (temporary e ∷ as') =
      let t = next_delay temp_delay in
      let (effects, err) = serve_loop o t as' in (sleeps t ∷ effects, err)
  serve_loop o temp_delay (permanent e ∷ as') = ([], some e)
  serve_loop o temp_delay (accepts c ∷ as') =
      let (effects, err) = serve_loop o 0 as' in (accept o c ++ effects, err)

  unfoldable pub serve : Options → List (Accepted E) → List Effect × Option E
  serve o as' = let (effects, err) = serve_loop o 0 as' in (exec_cmds o.post_up ++ effects, err)

-- Close; only some handlers have a method Close.
unfoldable pub close : Bool → Options → List Effect
close is_closer o =
    exec_cmds o.pre_down
    ++ (if is_closer then closes_handler ∷ [] else [])
    ++ closes_listener ∷ exec_cmds o.post_down
