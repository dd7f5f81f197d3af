-- ===== src/Gateway/Startup.antt =====
-- Runs of the start and the end of web/gateway/server.ts, in a repository that has a build.
use Prim.Native.String.{◌++◌ as ◌<>◌}
use market_sandbox.Prelude.{zero, ◌≡◌, refl, none, List, [], ◌∷◌, map, true, if◌then◌else◌, String}
use market_sandbox.JsMap
use market_sandbox.Gateway.{initial}
use market_sandbox.Gateway.Args.{
  Text, Text_discrete, key_port, args, Given, flag, setting, word, last_given, args-last_given,
}
use market_sandbox.Gateway.Demo
use market_sandbox.Gateway.Demo.{Outside, demo, timer, signal, run}
use market_sandbox.Gateway.Processes.{spawned, killed, run-killed}
use market_sandbox.Gateway.Bots.{Started, release, run-Started}

abbrev joined : List String → String
joined [] = ""
joined (d ∷ ds) = d <> "/" <> joined ds

abbrev repository : Outside
repository = record {
  exists = λ d. true;
  join = joined;
  root = "repo";
  exchange = "localhost:50051";
}

abbrev key_demo : Text
key_demo = b'd' ∷ b'e' ∷ b'm' ∷ b'o' ∷ []

abbrev given : List Given
given = flag key_demo ∷ setting key_port (b'8' ∷ b'0' ∷ []) ∷ setting key_port (b'9' ∷ []) ∷ []

args-last_given_example :
    JsMap.lookup Text_discrete key_port (args (map word given)) ≡ last_given key_port given none
args-last_given_example = args-last_given key_port given (
  (refl, (refl, (refl, (refl, tt)))),
  (
    ((refl, (refl, (refl, (refl, tt)))), (refl, (refl, tt))),
    (((refl, (refl, (refl, (refl, tt)))), (refl, tt)), tt),
  ),
)

run-killed_example :
    let (s, out) = run repository (demo ∷ timer ∷ signal ∷ []) (Demo.initial initial) in
    (spawned out ≡ s.children) × (killed out ≡ (if s.ended then spawned out else []))
run-killed_example = run-killed repository (demo ∷ timer ∷ signal ∷ []) initial

run-Started_example :
    Started repository
      (joined ("repo" ∷ "build-release" ∷ []))
      zero
      (timer ∷ demo ∷ timer ∷ signal ∷ timer ∷ [])
      (spawned
        (run repository (timer ∷ demo ∷ timer ∷ signal ∷ timer ∷ []) (Demo.initial initial)).1)
run-Started_example =
    run-Started repository initial (joined ("repo" ∷ "build-release" ∷ []))
      (timer ∷ demo ∷ timer ∷ signal ∷ timer ∷ []) (release refl)
