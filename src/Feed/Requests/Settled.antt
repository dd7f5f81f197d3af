-- ===== src/Feed/Requests/Settled.antt =====
-- Every request of web/src/feed.ts is settled once.
use market_sandbox.Prelude.{
  ℕ, zero, suc, ◌+◌, ◌≤◌, ◌<◌, ◌≡◌, refl, sym, ap, ◌∙◌, Option, none, some, Option-cases, List, [],
  ◌∷◌, ◌++◌, Bool, true, false, inl, inr, arith, ℕ_discrete,
}
use market_sandbox.JsMap
use market_sandbox.JsMap.{JsMap}
use market_sandbox.JsMap.Laws.{lookup-insert, lookup-insert_self, lookup-erase}
use market_sandbox.Feed.Requests.{
  Requests, initial, Outcome, answered, no_answer, Callback, settles, request, time_out, on_result,
  Event, asked, timed_out, got, handle, run, times, waits, made, IsOnce,
}

times-append :
    (id : ℕ) (xs ys : List (ℕ × Outcome)) → times id (xs ++ ys) ≡ times id xs + times id ys
times-append id [] ys = omega arith
times-append id ((j, o) ∷ xs) ys = omega (arith, times-append id xs ys)

settle-IsOnce :
    (s : Requests) (id j : ℕ) (o : Outcome) (c : Callback)
    → JsMap.lookup ℕ_discrete j s.pending ≡ some c
    → IsOnce s id
    → IsOnce
        (record s {
          pending = JsMap.erase ℕ_discrete j s.pending;
          timers = JsMap.erase ℕ_discrete j s.timers;
          resolved = s.resolved ++ (j, o) ∷ [];
        })
        id
settle-IsOnce s id j o c found h =
    let left = lookup-erase ℕ_discrete j id s.pending in
    let timer = lookup-erase ℕ_discrete j id s.timers in
    let more = times-append id s.resolved ((j, o) ∷ []) in
    let once = h.once in
    let armed = h.armed in
    record {
      once = ground (arith, left, more, found, once);
      armed = ground (arith, left, timer, armed);
    }

pub made_new : (n : ℕ) → made (n + 1) (n + 1) ≡ 1
made_new n = ground arith

pub made_not_yet : (n : ℕ) → made (n + 1) n ≡ 0
made_not_yet n = ground arith

pub made_in_use : (id n : ℕ) → 0 < id → id ≤ n → made id n ≡ 1
made_in_use zero n h k = absurd (omega arith)
made_in_use (suc id) n h k = ground arith

pub made_other : (id n : ℕ) → ¬ (n + 1 ≡ id) → made id (n + 1) ≡ made id n
made_other zero n h = refl
made_other (suc id) n h = ground arith

pub request-IsOnce :
    (can : Bool) (s : Requests) → ((id : ℕ) → IsOnce s id) → (id : ℕ) → IsOnce (request can s).0 id
unfolding request
request-IsOnce false s h id = h id
request-IsOnce true s h id =
    let new = lookup-insert ℕ_discrete (s.req_id + 1) id settles s.pending in
    let timer = lookup-insert ℕ_discrete (s.req_id + 1) id settles s.timers in
    let once = (h id).once in
    let armed = (h id).armed in
    let counted : waits
            (JsMap.lookup ℕ_discrete id (JsMap.insert ℕ_discrete (s.req_id + 1) settles s.pending))
          + times id s.resolved
        ≡ made id (s.req_id + 1) =
      elim (ℕ_discrete (s.req_id + 1) id) [
        | yes same ↦
            let fresh = (h (s.req_id + 1)).once in
            let self = lookup-insert_self ℕ_discrete (s.req_id + 1) settles s.pending in
            rw (sym same) (
              ap (λ (o : Option Callback). waits o + times (s.req_id + 1) s.resolved) self
              ∙ omega (arith, fresh, made_new s.req_id, made_not_yet s.req_id))
        | no other ↦ ground (arith, new, once, other, made_other id s.req_id other)
      ] in
    record { once = counted; armed = ground (arith, new, timer, armed) }

pub handle-IsOnce :
    (e : Event) (s : Requests) → ((id : ℕ) → IsOnce s id) → (id : ℕ) → IsOnce (handle e s) id
unfolding handle time_out on_result
handle-IsOnce (asked can) s h id = request-IsOnce can s h id
handle-IsOnce (timed_out j) s h id = elim (Option-cases (JsMap.lookup ℕ_discrete j s.timers)) [
  | inl off ↦ rw (off, time_out) (h id)
  | inr (c, on) ↦ rw (on, time_out) (settle-IsOnce s id j no_answer c (sym (h j).armed ∙ on) (h id))
]
handle-IsOnce (got j r) s h id = elim (Option-cases (JsMap.lookup ℕ_discrete j s.pending)) [
  | inl off ↦ rw (off, on_result) (h id)
  | inr (c, on) ↦ rw (on, on_result) (settle-IsOnce s id j (answered r) c on (h id))
]

run-IsOnce :
    (es : List Event) (s : Requests) → ((id : ℕ) → IsOnce s id) → (id : ℕ) → IsOnce (run es s) id
unfolding run
run-IsOnce [] s h id = h id
run-IsOnce (e ∷ es) s h id = run-IsOnce es (handle e s) (handle-IsOnce e s h) id

pub initial-IsOnce : (id : ℕ) → IsOnce initial id
unfolding JsMap.lookup
initial-IsOnce zero = record { once = omega arith; armed = refl }
initial-IsOnce (suc id) = record { once = ground arith; armed = refl }

-- No promise is settled twice and none is lost: after any requests, answers and timeouts, in any order and
-- with any numbers, a request that was made either was settled once and does not wait, or was not
-- settled and waits with its timer running; a number of no request was never settled.
pub run_settles-IsOnce : (es : List Event) (id : ℕ) → IsOnce (run es initial) id
run_settles-IsOnce es id = run-IsOnce es initial initial-IsOnce id

-- A request that is settled for good.
abbrev IsGone : Requests → ℕ → Type 0
IsGone s id = (JsMap.lookup ℕ_discrete id s.pending ≡ none) × (id ≤ s.req_id)

erased_stays :
    (s : Requests) (id j : ℕ)
    → JsMap.lookup ℕ_discrete id s.pending ≡ none
    → JsMap.lookup ℕ_discrete id (JsMap.erase ℕ_discrete j s.pending) ≡ none
erased_stays s id j gone =
    let left = lookup-erase ℕ_discrete j id s.pending in ground (arith, left, gone)

handle-IsGone : (e : Event) (s : Requests) (id : ℕ) → IsGone s id → IsGone (handle e s) id
unfolding handle time_out on_result request
handle-IsGone (asked false) s id h = h
handle-IsGone (asked true) s id h =
    let new = lookup-insert ℕ_discrete (s.req_id + 1) id settles s.pending in
    let (gone, used) = h in (ground (arith, new, gone, used), omega arith)
handle-IsGone (timed_out j) s id h = elim (Option-cases (JsMap.lookup ℕ_discrete j s.timers)) [
  | inl off ↦ rw (off, time_out) h
  | inr (c, on) ↦ rw (on, time_out) (erased_stays s id j h.0, h.1)
]
handle-IsGone (got j r) s id h = elim (Option-cases (JsMap.lookup ℕ_discrete j s.pending)) [
  | inl off ↦ rw (off, on_result) h
  | inr (c, on) ↦ rw (on, on_result) (erased_stays s id j h.0, h.1)
]

run-IsGone : (es : List Event) (s : Requests) (id : ℕ) → IsGone s id → IsGone (run es s) id
unfolding run
run-IsGone [] s id h = h
run-IsGone (e ∷ es) s id h = run-IsGone es (handle e s) id (handle-IsGone e s id h)

run-append : (es fs : List Event) (s : Requests) → run (es ++ fs) s ≡ run fs (run es s)
unfolding run
run-append [] fs s = refl
run-append (e ∷ es) fs s = run-append es fs (handle e s)

time_out-IsGone : (s : Requests) (id : ℕ) → IsOnce s id → id ≤ s.req_id → IsGone (time_out id s) id
unfolding time_out
time_out-IsGone s id h used = elim (Option-cases (JsMap.lookup ℕ_discrete id s.timers)) [
  | inl off ↦ rw (off, time_out) (sym h.armed ∙ off, used)
  | inr (c, on) ↦ rw (on, time_out) (ground (arith, lookup-erase ℕ_discrete id id s.pending), used)
]

-- Once four seconds have passed for it, a request has been settled: after any events and the firing of its
-- timer, and whatever comes after, the promise of a request that was made is settled exactly once.
pub time_out_settles :
    (es fs : List Event) (id : ℕ)
    → 0 < id
    → id ≤ (run es initial).req_id
    → times id (run (es ++ timed_out id ∷ fs) initial).resolved ≡ 1
unfolding run handle
time_out_settles es fs id h used =
    let before = run es initial in
    let once = run_settles-IsOnce (es ++ timed_out id ∷ fs) id in
    let (gone, last) =
      run-IsGone fs (time_out id before) id
        (time_out-IsGone before id (run_settles-IsOnce es id) used) in
    let joined = run-append es (timed_out id ∷ fs) initial in
    let none_left : JsMap.lookup ℕ_discrete id (run (es ++ timed_out id ∷ fs) initial).pending
        ≡ none =
      ap (λ (s : Requests). JsMap.lookup ℕ_discrete id s.pending) joined ∙ gone in
    let in_use : id ≤ (run (es ++ timed_out id ∷ fs) initial).req_id = rw joined last in
    let waiting = ap waits none_left in omega (arith, once.once, waiting, made_in_use id _ h in_use)
