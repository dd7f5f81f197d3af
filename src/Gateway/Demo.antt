-- ===== src/Gateway/Demo.antt =====
-- The processes that web/gateway/server.ts starts and ends: `startDemo`, its timer, `shutdown`, and the last lines of the
-- file. The file system, the paths' library, the process library and the signals are not modelled: `exists` and `join` are arguments,
-- and a process that is started or killed is an output.
use Prim.Native.String.{◌++◌ as ◌<>◌}
use market_sandbox.Prelude.{
  Option, none, some, List, [], ◌∷◌, ◌++◌, map, Bool, true, false, if◌then◌else◌, ite, String,
  String_discrete,
}
use market_sandbox.Roster.{BotSpec, roster}
use market_sandbox.Gateway.{Gateway, Post, stop_recording, start_recording, subscribe}

-- The arguments of `run`.
pub record Child : Type 0 where
  pub exe : String
  pub args : List String
  pub tag : String

pub data Command : Type 0 where
  spawn : Child → Command
  kill : Child → Command
  post : Post → Command
  exit : Command

-- The gateway with `children`, the waiting timer of `startDemo` with its build directory, and whether it has exited.
pub record State : Type 0 where
  pub gateway : Gateway
  pub children : List Child
  pub due : List String
  pub ended : Bool

abbrev pub initial : Gateway → State
initial g = record { gateway = g; children = []; due = []; ended = false }

-- What the gateway finds outside.
pub record Outside : Type 0 where
  pub exists : String → Bool
  pub join : List String → String
  pub root : String
  pub exchange : String

abbrev pub first_of : (String → Bool) → List String → Option String
first_of test [] = none
first_of test (d ∷ ds) = if test d then some d else first_of test ds

abbrev pub posts : List Post → List Command
posts = map post

abbrev pub kills : List Child → List Command
kills = map kill

abbrev pub spawns : List Child → List Command
spawns = map spawn

module _ (o : Outside) where
  -- `buildDir`
  abbrev pub build_dir : Option String
  build_dir =
      first_of (λ d. o.exists (o.join (d ∷ "exchangeService.exe" ∷ [])))
        (map (λ d. o.join (o.root ∷ d ∷ [])) ("build-release" ∷ "build" ∷ []))

  abbrev pub exchange_child : String → Child
  exchange_child dir = record {
    exe = o.join (dir ∷ "exchangeService.exe" ∷ []);
    args = [];
    tag = "exchange";
  }

  abbrev pub replay_args : BotSpec → List String
  replay_args b =
      ite (String_discrete b.strategy "replay")
        (("--replay-file="
            <> o.join (o.root ∷ "nodes" ∷ "strategies" ∷ "replay_data" ∷ "sample_series.csv" ∷ []))
          ∷ [])
        []

  -- The body of the loop over the roster.
  abbrev pub bot_child : String → BotSpec → Child
  bot_child dir b = record {
    exe = o.join (dir ∷ "node.exe" ∷ []);
    args =
        (("--strategy=" <> b.strategy)
          ∷ ("--node-id=" <> b.id)
          ∷ ("--server=" <> o.exchange)
          ∷ b.flags)
        ++ replay_args b;
    tag = b.id;
  }

  -- `run`, for some processes.
  abbrev pub start_all : List Child → State → State × List Command
  start_all cs s = (record s { children = s.children ++ cs }, spawns cs)

  -- `startDemo`; without a build it starts nothing.
  unfoldable pub start_demo : State → State × List Command
  start_demo s = elim build_dir [
    | none ↦ (s, [])
    | some dir ↦ start_all (exchange_child dir ∷ []) (record s { due = s.due ++ dir ∷ [] })
  ]

  -- The first waiting timer, after 1.5 seconds.
  unfoldable pub on_timer : State → State × List Command
  on_timer s = elim s.due [
    | [] ↦ (s, [])
    | dir ∷ later ↦ start_all (map (bot_child dir) roster) (record s { due = later })
  ]

-- `shutdown`, the handler of the signals.
unfoldable pub shutdown : State → State × List Command
shutdown s =
    let (g, out) = stop_recording s.gateway in
    (record s { gateway = g; ended = true }, posts out ++ (kills s.children ++ exit ∷ []))

pub data Event : Type 0 where
  demo timer signal : Event

unfoldable pub handle : Outside → Event → State → State × List Command
handle o demo s = start_demo o s
handle o timer s = on_timer o s
handle o signal s = shutdown s

-- Some events; after `process.exit` there is none.
unfoldable pub run : Outside → List Event → State → State × List Command
run o [] s = (s, [])
run o (e ∷ es) s =
    let (t, now) = handle o e s in
    let (end, later) = run o es t in if s.ended then (s, []) else (end, now ++ later)

-- The last lines of the file, by whether `--demo` and `--record` were given.
unfoldable pub boot : Outside → Bool → Bool → String → State → State × List Command
boot o with_demo with_record file s =
    let (s1, out1) = if with_demo then start_demo o s else (s, []) in
    let (g2, out2) = if with_record then start_recording file s1.gateway else (s1.gateway, []) in
    let (g3, out3) = subscribe g2 in (record s1 { gateway = g3 }, out1 ++ posts out2 ++ posts out3)
