-- ===== src/Gateway/Processes.antt =====
-- No process outlives the gateway of web/gateway/server.ts.
use mathlib.Core.List.{append_assoc, append-nil}
use market_sandbox.Prelude.{
  ◌≡◌, refl, sym, ap, ◌∙◌, subst, Option-cases, inl, inr, List, [], ◌∷◌, ◌++◌, map, Bool, true,
  false, Bool-cases, if◌then◌else◌, String,
}
use market_sandbox.Roster.{roster}
use market_sandbox.Gateway.{Gateway, Post, stop_recording}
use market_sandbox.Gateway.Demo.{
  Child, Command, spawn, kill, post, exit, State, initial, Outside, posts, kills, spawns, build_dir,
  exchange_child, bot_child, start_all, start_demo, on_timer, shutdown, Event, demo, timer, signal,
  handle, run,
}

-- The processes that are started, in order.
abbrev pub spawned : List Command → List Child
spawned [] = []
spawned (spawn c ∷ out) = c ∷ spawned out
spawned (_ ∷ out) = spawned out

-- The processes that are killed, in order.
abbrev pub killed : List Command → List Child
killed [] = []
killed (kill c ∷ out) = c ∷ killed out
killed (_ ∷ out) = killed out

pub spawned-append : (xs ys : List Command) → spawned (xs ++ ys) ≡ spawned xs ++ spawned ys
spawned-append [] ys = refl
spawned-append (spawn c ∷ xs) ys = ap (◌∷◌ c) (spawned-append xs ys)
spawned-append (kill c ∷ xs) ys = spawned-append xs ys
spawned-append (post p ∷ xs) ys = spawned-append xs ys
spawned-append (exit ∷ xs) ys = spawned-append xs ys

killed-append : (xs ys : List Command) → killed (xs ++ ys) ≡ killed xs ++ killed ys
killed-append [] ys = refl
killed-append (spawn c ∷ xs) ys = killed-append xs ys
killed-append (kill c ∷ xs) ys = ap (◌∷◌ c) (killed-append xs ys)
killed-append (post p ∷ xs) ys = killed-append xs ys
killed-append (exit ∷ xs) ys = killed-append xs ys

pub spawned-spawns : (cs : List Child) → (spawned (spawns cs) ≡ cs) × (killed (spawns cs) ≡ [])
spawned-spawns [] = (refl, refl)
spawned-spawns (c ∷ cs) = (ap (◌∷◌ c) (spawned-spawns cs).0, (spawned-spawns cs).1)

pub killed-kills :
    (cs : List Child)
    → (killed (kills cs ++ exit ∷ []) ≡ cs) × (spawned (kills cs ++ exit ∷ []) ≡ [])
killed-kills [] = (refl, refl)
killed-kills (c ∷ cs) = (ap (◌∷◌ c) (killed-kills cs).0, (killed-kills cs).1)

pub only_posts :
    (ps : List Post) (out : List Command)
    → (killed (posts ps ++ out) ≡ killed out) × (spawned (posts ps ++ out) ≡ spawned out)
only_posts [] out = (refl, refl)
only_posts (p ∷ ps) out = only_posts ps out

-- What a handler or a run has done, between two states: the processes started are added to the children, and if it was the
-- end, all of these were killed; else none was.
record IsKept (s t : State) (out : List Command) : Type 0 where
  started : t.children ≡ s.children ++ spawned out
  ends : killed out ≡ (if t.ended then t.children else [])

start_all-IsKept :
    (o : Outside) (cs : List Child) (due : List String) (s : State)
    → s.ended ≡ false
    → let done = start_all o cs (record s { due = due }) in IsKept s done.0 done.1
start_all-IsKept o cs due s runs = record {
  started = ap (λ x. s.children ++ x) (sym (spawned-spawns cs).0);
  ends = (spawned-spawns cs).1 ∙ rw runs refl;
}

nothing-IsKept : (s : State) → s.ended ≡ false → IsKept s s []
nothing-IsKept s runs = record { started = sym (append-nil s.children); ends = rw runs refl }

handle-IsKept :
    (o : Outside) (e : Event) (s : State)
    → s.ended ≡ false
    → IsKept s (handle o e s).0 (handle o e s).1
unfolding handle start_demo on_timer shutdown
handle-IsKept o demo s runs = elim (Option-cases (build_dir o)) [
  | inl missing ↦ rw (missing, start_demo) (nothing-IsKept s runs)
  | inr (dir, is) ↦
      rw (is, start_demo)
        (start_all-IsKept o (exchange_child o dir ∷ []) (s.due ++ dir ∷ []) s runs)
]
handle-IsKept o timer s runs = timer-IsKept s.due refl
  where
    timer-IsKept : (due : List String) → s.due ≡ due → IsKept s (on_timer o s).0 (on_timer o s).1
    timer-IsKept [] is =
        rw (is, on_timer) (record { started = sym (append-nil s.children); ends = rw runs refl })
    timer-IsKept (dir ∷ later) is =
        rw (is, on_timer)
          (start_all-IsKept o (map (bot_child o dir) roster) later (record s { due = dir ∷ later })
            runs)
handle-IsKept o signal s runs =
    let out = (stop_recording s.gateway).1 in
    let (kill_all, none_started) = killed-kills s.children in
    let (k, n) = only_posts out (kills s.children ++ exit ∷ []) in
    record {
      started = sym (append-nil s.children) ∙ ap (λ x. s.children ++ x) (sym (n ∙ none_started));
      ends = k ∙ kill_all;
    }

pub run-ended : (o : Outside) (es : List Event) (s : State) → s.ended ≡ true → run o es s ≡ (s, [])
unfolding run
run-ended o [] s is = refl
run-ended o (e ∷ es) s is = rw is refl

joined-IsKept :
    (s t u : State) (now later : List Command)
    → t.ended ≡ false
    → IsKept s t now
    → IsKept t u later
    → IsKept s u (now ++ later)
joined-IsKept s t u now later runs h k = record {
  started =
      k.started
      ∙ ap (λ x. x ++ spawned later) h.started
      ∙ append_assoc s.children (spawned now) (spawned later)
      ∙ ap (λ x. s.children ++ x) (sym (spawned-append now later));
  ends =
      let none_yet : killed now ≡ [] = h.ends ∙ rw runs refl in
      killed-append now later ∙ ap (λ x. x ++ killed later) none_yet ∙ k.ends;
}

pub run-nil : (o : Outside) (s : State) → run o [] s ≡ (s, [])
unfolding run
run-nil o s = refl

pub run-step :
    (o : Outside) (e : Event) (es : List Event) (s : State)
    → s.ended ≡ false
    → let t = handle o e s in let rest = run o es t.0 in run o (e ∷ es) s ≡ (rest.0, t.1 ++ rest.1)
unfolding run
run-step o e es s runs =
    let t = handle o e s in
    let rest = run o es t.0 in
    ap (λ (b : Bool). if b then (s, []) else (rest.0, t.1 ++ rest.1)) runs

run-IsKept :
    (o : Outside) (es : List Event) (s : State)
    → s.ended ≡ false
    → IsKept s (run o es s).0 (run o es s).1
run-IsKept o [] s runs = subst (λ x. IsKept s x.0 x.1) (sym (run-nil o s)) (nothing-IsKept s runs)
run-IsKept o (e ∷ es) s runs =
    let t = (handle o e s).0 in
    let now = (handle o e s).1 in
    let h = handle-IsKept o e s runs in
    subst (λ x. IsKept s x.0 x.1) (sym (run-step o e es s runs))
      (elim (Bool-cases t.ended) [
        | inl over ↦
            subst (λ (x : State × List Command). IsKept s x.0 (now ++ x.1))
              (sym (run-ended o es t over)) (subst (IsKept s t) (sym (append-nil now)) h)
        | inr more ↦
            joined-IsKept s t (run o es t).0 now (run o es t).1 more h (run-IsKept o es t more)
      ])

-- Whatever the order in which the demo is asked for, its timers fire and signals come: the processes that the
-- gateway has started are those that it has as its children, and once a signal has ended it, it has killed
-- each of them exactly as often as it was started, and in that order. Before a signal it kills none.
pub run-killed :
    (o : Outside) (es : List Event) (g : Gateway)
    → let (s, out) = run o es (initial g) in
      (spawned out ≡ s.children) × (killed out ≡ (if s.ended then spawned out else []))
run-killed o es g =
    let h = run-IsKept o es (initial g) refl in
    let s = (run o es (initial g)).0 in
    (sym h.started, h.ends ∙ ap (λ x. if s.ended then x else []) h.started)
