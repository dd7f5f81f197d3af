-- ===== src/Traffic/Pages.antt =====
-- Several pages of web/src/feed.ts settle their requests with their own answers: what each handler keeps.
use market_sandbox.Prelude.{
  ℕ, ◌≡◌, refl, inl, inr, Option-cases, [], ◌∷◌, ◌++◌, ite, All, All-append, String, ℕ_discrete,
}
use market_sandbox.JsMap
use market_sandbox.Feed.Socket.{OrderResult, Message}
use market_sandbox.Feed.Requests
use market_sandbox.Feed.Requests.{
  Requests, Outcome, answered, no_answer, on_result, time_out, request, times, waits, made, IsOnce,
  asked, timed_out, got,
}
use market_sandbox.Feed.Requests.Settled.{handle-IsOnce}
use market_sandbox.Gateway.{Post, to_all, to_client, retry}
use market_sandbox.Traffic.{Log, update, receive, deliver}
use market_sandbox.Traffic.Origin.{IsWithin, IsOrigin, IsPosted, IsSettled, IsOwn}

time_out-req_id : (p : Requests) (id : ℕ) → (time_out id p).req_id ≡ p.req_id
unfolding time_out
time_out-req_id p id = elim (Option-cases (JsMap.lookup ℕ_discrete id p.timers)) [
  | inl off ↦ rw (off, time_out) refl
  | inr (u, on) ↦ rw (on, time_out) refl
]

on_result-req_id : (p : Requests) (id : ℕ) (r : OrderResult) → (on_result id r p).req_id ≡ p.req_id
unfolding on_result
on_result-req_id p id r = elim (Option-cases (JsMap.lookup ℕ_discrete id p.pending)) [
  | inl off ↦ rw (off, on_result) refl
  | inr (u, on) ↦ rw (on, on_result) refl
]

module _ (lower : String → String) where
  -- A longer log keeps the origins.
  module _ (log later : Log) (within : IsWithin log later) where
    pub later-IsOrigin :
        (c id : ℕ) (r : OrderResult) → IsOrigin lower log c id r → IsOrigin lower later c id r
    later-IsOrigin c id r h = record {
      m = h.m;
      outcome = h.outcome;
      g = h.g;
      sent_by = within.sent (c, h.m) h.sent_by;
      came_back = within.ended _ h.came_back;
      numbered = h.numbered;
      result = h.result;
    }

    pub later-IsSettled :
        (c : ℕ) (x : ℕ × Outcome) → IsSettled lower log c x → IsSettled lower later c x
    later-IsSettled c (id, answered r) h = later-IsOrigin c id r h
    later-IsSettled c (id, no_answer) h = tt

    pub later-IsPosted : (p : Post) → IsPosted lower log p → IsPosted lower later p
    later-IsPosted (to_client c (Message.result id r)) h = later-IsOrigin c id r h
    later-IsPosted (to_client c (Message.hello x)) h = tt
    later-IsPosted (to_client c (Message.status x y)) h = tt
    later-IsPosted (to_client c (Message.history x)) h = tt
    later-IsPosted (to_client c (Message.batch x)) h = tt
    later-IsPosted (to_client c (Message.book x)) h = tt
    later-IsPosted (to_client c Message.other) h = tt
    later-IsPosted (to_all (Message.result id r)) h = h
    later-IsPosted (to_all (Message.hello x)) h = tt
    later-IsPosted (to_all (Message.status x y)) h = tt
    later-IsPosted (to_all (Message.history x)) h = tt
    later-IsPosted (to_all (Message.batch x)) h = tt
    later-IsPosted (to_all (Message.book x)) h = tt
    later-IsPosted (to_all Message.other) h = tt
    later-IsPosted retry h = tt

  module _ (log : Log) (c : ℕ) (p : Requests) where
    resolves :
        (id : ℕ) (o : Outcome)
        → IsSettled lower log c (id, o)
        → All (IsSettled lower log c) p.resolved
        → All (IsSettled lower log c) (p.resolved ++ (id, o) ∷ [])
    resolves id o own h = All-append (IsSettled lower log c) p.resolved ((id, o) ∷ []) h (own, tt)

    time_out-settled :
        (id : ℕ)
        → All (IsSettled lower log c) p.resolved
        → All (IsSettled lower log c) (time_out id p).resolved
    unfolding time_out
    time_out-settled id h = elim (Option-cases (JsMap.lookup ℕ_discrete id p.timers)) [
      | inl off ↦ rw (off, time_out) h
      | inr (u, on) ↦ rw (on, time_out) (resolves id no_answer tt h)
    ]

    on_result-settled :
        (id : ℕ) (r : OrderResult)
        → IsOrigin lower log c id r
        → All (IsSettled lower log c) p.resolved
        → All (IsSettled lower log c) (on_result id r p).resolved
    unfolding on_result
    on_result-settled id r own h = elim (Option-cases (JsMap.lookup ℕ_discrete id p.pending)) [
      | inl off ↦ rw (off, on_result) h
      | inr (u, on) ↦ rw (on, on_result) (resolves id (answered r) own h)
    ]

    pub time_out-IsOwn : (id : ℕ) → IsOwn lower log c p → IsOwn lower log c (time_out id p)
    unfolding Requests.handle
    time_out-IsOwn id h = record {
      once = λ j. handle-IsOnce (timed_out id) p h.once j;
      counted = λ j. rw (time_out-req_id p id) (h.counted j);
      settled = time_out-settled id h.settled;
    }

    pub on_result-IsOwn :
        (id : ℕ) (r : OrderResult)
        → IsOrigin lower log c id r
        → IsOwn lower log c p
        → IsOwn lower log c (on_result id r p)
    unfolding Requests.handle
    on_result-IsOwn id r own h = record {
      once = λ j. handle-IsOnce (got id r) p h.once j;
      counted = λ j. rw (on_result-req_id p id r) (h.counted j);
      settled = on_result-settled id r own h.settled;
    }

  module _ (log : Log) where
    pub update-IsOwn :
        (c : ℕ) (p : Requests) (pages : ℕ → Requests)
        → IsOwn lower log c p
        → ((j : ℕ) → IsOwn lower log j (pages j))
        → (j : ℕ) → IsOwn lower log j (update c p pages j)
    update-IsOwn c p pages own h j =
        elim (ℕ_discrete j c) as (λ d. IsOwn lower log j (ite d p (pages j))) [
          | yes same ↦ rw same own
          | no other ↦ h j
        ]

    pub receive-IsOwn :
        (c : ℕ) (m : Message) (p : Requests)
        → IsPosted lower log (to_client c m)
        → IsOwn lower log c p
        → IsOwn lower log c (receive m p)
    receive-IsOwn c (Message.result id r) p own h = on_result-IsOwn log c p id r own h
    receive-IsOwn c (Message.hello x) p own h = h
    receive-IsOwn c (Message.status x y) p own h = h
    receive-IsOwn c (Message.history x) p own h = h
    receive-IsOwn c (Message.batch x) p own h = h
    receive-IsOwn c (Message.book x) p own h = h
    receive-IsOwn c Message.other p own h = h

    -- What is said to all is no result.
    pub said_to_all :
        (c : ℕ) (m : Message) → IsPosted lower log (to_all m) → IsPosted lower log (to_client c m)
    said_to_all c (Message.result id r) h = absurd h
    said_to_all c (Message.hello x) h = tt
    said_to_all c (Message.status x y) h = tt
    said_to_all c (Message.history x) h = tt
    said_to_all c (Message.batch x) h = tt
    said_to_all c (Message.book x) h = tt
    said_to_all c Message.other h = tt

    pub deliver-IsOwn :
        (q : Post) (pages : ℕ → Requests)
        → IsPosted lower log q
        → ((j : ℕ) → IsOwn lower log j (pages j))
        → (j : ℕ) → IsOwn lower log j (deliver q pages j)
    deliver-IsOwn (to_all m) pages own h j = receive-IsOwn j m (pages j) (said_to_all j m own) (h j)
    deliver-IsOwn (to_client c m) pages own h j =
        update-IsOwn c (receive m (pages c)) pages (receive-IsOwn c m (pages c) own (h c)) h j
    deliver-IsOwn retry pages own h j = h j
