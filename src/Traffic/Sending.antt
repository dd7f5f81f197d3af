-- ===== src/Traffic/Sending.antt =====
-- What a new request of web/src/feed.ts does to several pages, and that the logs of what has happened only grow.
use market_sandbox.Prelude.{
  ℕ, ◌+◌, ◌≡◌, refl, sym, ◌∙◌, subst, inr, List, ◌∷◌, true, false, ite, arith, All-imp, String,
  ℕ_discrete,
}
use market_sandbox.Feed.Socket.{OrderResult}
use market_sandbox.Feed.Requests
use market_sandbox.Feed.Requests.{
  Requests, Outcome, answered, no_answer, on_result, time_out, request, times, waits, made, IsOnce,
  asked, timed_out, got,
}
use market_sandbox.Feed.Requests.Settled.{made_new, made_not_yet, made_other, handle-IsOnce}
use market_sandbox.Feed.Orders.{Ask, order, cancel, refused, sent, place_order, cancel_order}
use market_sandbox.Traffic.{
  Log, Ended, sent_more, ended_more, update, Wish, to_place, to_cancel, start,
}
use market_sandbox.Traffic.Origin.{IsWithin, number, count, IsOwn}
use market_sandbox.Traffic.Pages.{later-IsSettled}

-- A request that is sent: the page's next number, and one message with it.
pub start-sent :
    (w : Wish) (p : Requests)
    → (m : Ask) × (start w true p ≡ ((request true p).0, sent m)) × (number m ≡ p.req_id + 1)
unfolding place_order cancel_order request
start-sent (to_place side type price qty) p = (order (p.req_id + 1) side type price qty, refl, refl)
start-sent (to_cancel id) p = (cancel (p.req_id + 1) id, refl, refl)

pub start-refused :
    (w : Wish) (p : Requests) → (r : OrderResult) × (start w false p ≡ (p, refused r))
unfolding place_order cancel_order request
start-refused (to_place side type price qty) p = (_, refl)
start-refused (to_cancel id) p = (_, refl)

same_count :
    (c id n : ℕ) (m : Ask) (log : List (ℕ × Ask))
    → number m ≡ n + 1
    → ((j : ℕ) → count c j log ≡ made j n)
    → count c id ((c, m) ∷ log) ≡ made id (n + 1)
same_count c id n m log new old = elim (ℕ_discrete (n + 1) id) [
  | yes same ↦
      let before : count c (n + 1) log ≡ 0 = old (n + 1) ∙ made_not_yet n in
      let one : count c (n + 1) ((c, m) ∷ log) ≡ 1 = ground (arith, new, before) in
      subst (λ k. count c k ((c, m) ∷ log) ≡ made k (n + 1)) same (one ∙ sym (made_new n))
  | no other ↦
      let before = old id in
      let after = made_other id n other in ground (arith, new, before, after, other)
]

other_count :
    (c d id : ℕ) (m : Ask) (log : List (ℕ × Ask))
    → ¬ (c ≡ d)
    → count c id ((d, m) ∷ log) ≡ count c id log
other_count c d id m log other = ground (arith, other)

pub sent-IsWithin : (c : ℕ) (m : Ask) (log : Log) → IsWithin log (sent_more c m log)
sent-IsWithin c m log = record { sent = λ e is. inr is; ended = λ e is. is }

pub ended-IsWithin : (e : Ended) (log : Log) → IsWithin log (ended_more e log)
ended-IsWithin e log = record { sent = λ e is. is; ended = λ e is. inr is }

pub ended-IsOwn :
    (lower : String → String) (e : Ended) (log : Log) (c : ℕ) (p : Requests)
    → IsOwn lower log c p
    → IsOwn lower (ended_more e log) c p
ended-IsOwn lower e log c p h = record {
  once = h.once;
  counted = h.counted;
  settled =
      All-imp p.resolved (later-IsSettled lower log (ended_more e log) (ended-IsWithin e log) c)
        h.settled;
}

module _ (lower : String → String) (c : ℕ) (m : Ask) (log : Log) where
  asking-IsOwn :
      (p : Requests)
      → number m ≡ p.req_id + 1
      → IsOwn lower log c p
      → IsOwn lower (sent_more c m log) c (request true p).0
  unfolding Requests.handle request
  asking-IsOwn p new h = record {
    once = λ id. handle-IsOnce (asked true) p h.once id;
    counted = λ id. same_count c id p.req_id m log.sent new h.counted;
    settled =
        All-imp p.resolved (later-IsSettled lower log (sent_more c m log) (sent-IsWithin c m log) c)
          h.settled;
  }

  waiting-IsOwn :
      (j : ℕ) (p : Requests) → ¬ (j ≡ c) → IsOwn lower log j p → IsOwn lower (sent_more c m log) j p
  waiting-IsOwn j p other h = record {
    once = h.once;
    counted = λ id. other_count j c id m log.sent other ∙ h.counted id;
    settled =
        All-imp p.resolved (later-IsSettled lower log (sent_more c m log) (sent-IsWithin c m log) j)
          h.settled;
  }

  pub request-IsOwn :
      (pages : ℕ → Requests)
      → number m ≡ (pages c).req_id + 1
      → ((j : ℕ) → IsOwn lower log j (pages j))
      → (j : ℕ) → IsOwn lower (sent_more c m log) j (update c (request true (pages c)).0 pages j)
  request-IsOwn pages new h j =
      elim (ℕ_discrete j c)
        as (λ d. IsOwn lower (sent_more c m log) j (ite d (request true (pages c)).0 (pages j))) [
          | yes same ↦ rw same (asking-IsOwn (pages c) new (h c))
          | no other ↦ waiting-IsOwn j (pages j) other (h j)
        ]
