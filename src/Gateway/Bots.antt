-- ===== src/Gateway/Bots.antt =====
-- Which processes `startDemo` of web/gateway/server.ts starts, and with which arguments.
use Prim.Native.String.{◌++◌ as ◌<>◌}
use mathlib.Core.List.{append-nil}
use market_sandbox.Prelude.{
  Bool, true, ℕ, zero, suc, ite, ◌≡◌, ◌≢◌, refl, sym, ap, ◌∙◌, subst, some, List, [], ◌∷◌, ◌++◌,
  map, false, String, String_discrete,
}
use market_sandbox.Wire.{RosterEntry}
use market_sandbox.Roster.{BotSpec, roster, announced}
use market_sandbox.Gateway.{Gateway, stop_recording}
use market_sandbox.Gateway.Demo.{
  Child, Command, State, start_all, initial, Outside, kills, build_dir, exchange_child, bot_child,
  start_demo, on_timer, shutdown, exit, Event, demo, timer, signal, handle, run,
}
use market_sandbox.Gateway.Processes.{
  spawned, spawned-append, spawned-spawns, killed-kills, only_posts, run-ended, run-nil, run-step,
}

-- Whether a directory of the repository holds the exchange.
abbrev pub is_built : Outside → String → Bool
is_built o d = o.exists (o.join (o.join (o.root ∷ d ∷ []) ∷ "exchangeService.exe" ∷ []))

-- The build that is used: that for release, or else the other one.
pub data IsBuild (o : Outside) : String → Type 0 where
  release : is_built o "build-release" ≡ true → IsBuild o (o.join (o.root ∷ "build-release" ∷ []))
  other :
      is_built o "build-release" ≡ false
      → is_built o "build" ≡ true
      → IsBuild o (o.join (o.root ∷ "build" ∷ []))

build_dir-IsBuild : (o : Outside) (dir : String) → IsBuild o dir → build_dir o ≡ some dir
build_dir-IsBuild o _ (release is) = rw is refl
build_dir-IsBuild o _ (other missing is) = rw (missing, is) refl

module _ (o : Outside) (dir : String) where
  -- The exchange of the build.
  pub record IsExchange (c : Child) : Type 0 where
    pub exe : c.exe ≡ o.join (dir ∷ "exchangeService.exe" ∷ [])
    pub args : c.args ≡ []
    pub tag : c.tag ≡ "exchange"

  -- What a bot is told, by the entry that is announced for it and the flags that are set for it; one that
  -- replays is told the file, too.
  abbrev pub told : RosterEntry → List String → List String → List String
  told r flags more =
      ("--strategy=" <> r.strategy)
      ∷ ("--node-id=" <> r.id)
      ∷ ("--server=" <> o.exchange)
      ∷ (flags ++ more)

  abbrev pub replay_file : String
  replay_file = o.join (o.root ∷ "nodes" ∷ "strategies" ∷ "replay_data" ∷ "sample_series.csv" ∷ [])

  pub data IsTold (r : RosterEntry) (flags : List String) (args : List String) : Type 0 where
    plain : r.strategy ≢ "replay" → args ≡ told r flags [] → IsTold r flags args
    replays :
        r.strategy ≡ "replay"
        → args ≡ told r flags (("--replay-file=" <> replay_file) ∷ [])
        → IsTold r flags args

  -- The process of a bot: the node of the build.
  pub record IsBot (r : RosterEntry) (b : BotSpec) (c : Child) : Type 0 where
    pub exe : c.exe ≡ o.join (dir ∷ "node.exe" ∷ [])
    pub tag : c.tag ≡ r.id
    pub args : IsTold r b.flags c.args

  -- One process for each entry that is announced, in their order.
  abbrev pub IsBots : List RosterEntry → List BotSpec → List Child → Type 0
  IsBots [] [] [] = Unit
  IsBots (r ∷ rs) (b ∷ bs) (c ∷ cs) = IsBot r b c × IsBots rs bs cs
  IsBots [] [] (c ∷ cs) = ⊥
  IsBots [] (b ∷ bs) cs = ⊥
  IsBots (r ∷ rs) [] cs = ⊥
  IsBots (r ∷ rs) (b ∷ bs) [] = ⊥

  -- The processes that some events start, while `k` timers wait.
  pub data Started : ℕ → List Event → List Child → Type 0 where
    at_rest : (k : ℕ) → Started k [] []
    ended : (k : ℕ) (es : List Event) → Started k (signal ∷ es) []
    asked :
        (k : ℕ) (es : List Event) (c : Child) (cs : List Child)
        → IsExchange c
        → Started (suc k) es cs
        → Started k (demo ∷ es) (c ∷ cs)
    idle : (es : List Event) (cs : List Child) → Started zero es cs → Started zero (timer ∷ es) cs
    joined :
        (k : ℕ) (es : List Event) (bots cs : List Child)
        → IsBots announced roster bots
        → Started k es cs
        → Started (suc k) (timer ∷ es) (bots ++ cs)

  abbrev entry : BotSpec → RosterEntry
  entry b = record { id = b.id; strategy = b.strategy }

  bot_child-IsBot : (b : BotSpec) → IsBot (entry b) b (bot_child o dir b)
  bot_child-IsBot b = record {
    exe = refl;
    tag = refl;
    args = told_args (String_discrete b.strategy "replay");
  }
    where
      told_args :
          (d : Dec (b.strategy ≡ "replay"))
          → IsTold
              (entry b)
              b.flags
              (told (entry b) b.flags (ite d (("--replay-file=" <> replay_file) ∷ []) []))
      told_args (yes e) = replays e refl
      told_args (no n) = plain n refl

  children-IsBots : (bs : List BotSpec) → IsBots (map entry bs) bs (map (bot_child o dir) bs)
  children-IsBots [] = tt
  children-IsBots (b ∷ bs) = (bot_child-IsBot b, children-IsBots bs)

  -- The timers that wait.
  abbrev waiting : ℕ → List String
  waiting zero = []
  waiting (suc k) = dir ∷ waiting k

  waiting-suc : (k : ℕ) → waiting k ++ dir ∷ [] ≡ waiting (suc k)
  waiting-suc zero = refl
  waiting-suc (suc k) = ap (◌∷◌ dir) (waiting-suc k)

  run-after :
      (e : Event) (es : List Event) (s : State) (x : State × List Command)
      → s.ended ≡ false
      → handle o e s ≡ x
      → spawned (run o (e ∷ es) s).1 ≡ spawned x.1 ++ spawned (run o es x.0).1
  run-after e es s x runs is =
      ap (λ (r : State × List Command). spawned r.1) (run-step o e es s runs)
      ∙ spawned-append (handle o e s).1 (run o es (handle o e s).0).1
      ∙ ap (λ (r : State × List Command). spawned r.1 ++ spawned (run o es r.0).1) is

  on_no_timer : (s : State) → s.due ≡ [] → handle o timer s ≡ (s, [])
  unfolding handle on_timer
  on_no_timer s due = rw due refl

  on_one_timer :
      (k : ℕ) (s : State)
      → s.due ≡ waiting (suc k)
      → handle o timer s ≡ start_all o (map (bot_child o dir) roster) (record s { due = waiting k })
  unfolding handle on_timer
  on_one_timer k s due = rw due refl

  module _ (found : build_dir o ≡ some dir) where
    on_demo :
        (s : State)
        → handle o demo s
          ≡ start_all o (exchange_child o dir ∷ []) (record s { due = s.due ++ dir ∷ [] })
    unfolding handle start_demo
    on_demo s = rw (found, start_demo) refl

    no_more : (s : State) → spawned (shutdown s).1 ++ [] ≡ []
    unfolding shutdown
    no_more s =
        append-nil (spawned (shutdown s).1)
        ∙ (only_posts (stop_recording s.gateway).1 (kills s.children ++ exit ∷ [])).1
        ∙ (killed-kills s.children).1

    from-Started :
        (es : List Event) (k : ℕ) (s : State)
        → s.ended ≡ false
        → s.due ≡ waiting k
        → Started k es (spawned (run o es s).1)
    unfolding shutdown handle
    from-Started [] k s runs due =
        subst (λ x. Started k [] (spawned x.1)) (sym (run-nil o s)) (at_rest k)
    from-Started (demo ∷ es) k s runs due =
        let c = exchange_child o dir in
        let t = record s { children = s.children ++ c ∷ []; due = s.due ++ dir ∷ [] } in
        let later = from-Started es (suc k) t runs (ap (λ x. x ++ dir ∷ []) due ∙ waiting-suc k) in
        subst (Started k (demo ∷ es)) (sym (run-after demo es s (t, _) runs (on_demo s)))
          (asked k es c _ (record { exe = refl; args = refl; tag = refl }) later)
    from-Started (timer ∷ es) zero s runs due =
        subst (Started zero (timer ∷ es))
          (sym (run-after timer es s (s, []) runs (on_no_timer s due)))
          (idle es _ (from-Started es zero s runs due))
    from-Started (timer ∷ es) (suc k) s runs due =
        let bots = map (bot_child o dir) roster in
        let t = record s { children = s.children ++ bots; due = waiting k } in
        let e =
          run-after timer es s (t, _) runs (on_one_timer k s due)
          ∙ ap (λ x. x ++ spawned (run o es t).1) (spawned-spawns bots).0 in
        subst (Started (suc k) (timer ∷ es)) (sym e)
          (joined k es bots _ (children-IsBots roster) (from-Started es k t runs refl))
    from-Started (signal ∷ es) k s runs due =
        let t = (shutdown s).0 in
        let e =
          run-after signal es s (shutdown s) runs refl
          ∙ ap (λ x. spawned (shutdown s).1 ++ spawned x.1) (run-ended o es t refl) in
        subst (Started k (signal ∷ es)) (sym (e ∙ no_more s)) (ended k es)

-- Whatever the order in which the demo is asked for, its timers fire and signals come, where the repository
-- holds a build, and with the build for release if there is one: until a signal ends the gateway, each
-- demand starts the exchange of that build, and each timer that waits starts one node of the build for
-- each bot that the gateway announces to the pages, in that order. Such a node is told the announced
-- strategy and name, the exchange's address, the flags of its entry of the roster, and, exactly when its
-- strategy is "replay", the file to replay. Nothing else is started.
pub run-Started :
    (o : Outside) (g : Gateway) (dir : String) (es : List Event)
    → IsBuild o dir
    → Started o dir zero es (spawned (run o es (initial g)).1)
run-Started o g dir es is =
    from-Started o dir (build_dir-IsBuild o dir is) es zero (initial g) refl refl
