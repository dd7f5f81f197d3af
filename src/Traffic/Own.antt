-- ===== src/Traffic/Own.antt =====
-- Which answer settles which request of web/src/feed.ts, when several pages number their requests alike.
use market_sandbox.Prelude.{
  IsIn, ℕ, zero, suc, ◌≤◌, ◌≡◌, ap, ◌∙◌, inl, inr, List, [], ◌∷◌, arith, String,
}
use market_sandbox.Feed.Socket.{OrderResult}
use market_sandbox.Feed.Requests.{Requests, Outcome, answered, times, made, IsOnce}
use market_sandbox.Gateway.{Gateway}
use market_sandbox.Traffic.{Traffic, Reach}
use market_sandbox.Traffic.Origin.{count, IsOrigin}
use market_sandbox.Traffic.Answers.{Reach-IsMatched, settled_in}

in-times :
    (id : ℕ) (o : Outcome) (done : List (ℕ × Outcome)) → IsIn (id, o) done → 1 ≤ times id done
in-times id o [] is = absurd is
in-times id o ((j, p) ∷ xs) (inl same) =
    let number : id ≡ j = ap (λ (x : ℕ × Outcome). x.0) same in ground (arith, number)
in-times id o ((j, p) ∷ xs) (inr later) =
    let before = in-times id o xs later in omega (arith, before)

made_once : (id last : ℕ) → made id last ≤ 1
made_once zero last = omega arith
made_once (suc id) last = ground arith

settled_once :
    (p : Requests) (id : ℕ) (o : Outcome)
    → IsOnce p id
    → IsIn (id, o) p.resolved
    → (times id p.resolved ≡ 1) × (made id p.req_id ≡ 1)
settled_once p id o h is =
    let some_time = in-times id o p.resolved is in
    let at_most = made_once id p.req_id in
    let once = h.once in
    (omega (arith, some_time, at_most, once), omega (arith, some_time, at_most, once))

-- Pages that use the gateway at once, each numbering its requests from 1, never get each other's answers:
-- whatever the order in which messages arrive, calls end, results come back and timers fire, and whatever
-- closing sockets lose, an answer that settled request `id` of page `c` is the gateway's result for what
-- came of a call that has ended, and that call was made for a message that `c` itself sent under that
-- number; `c` sent one message only under it, and settled the request once.
pub Reach-IsOrigin :
    (file : String) (lower : String → String) (g : Gateway) (s : Traffic) (c id : ℕ)
    (r : OrderResult)
    → Reach file lower g s
    → IsIn (id, answered r) (s.pages c).resolved
    → IsOrigin lower s.log c id r
      × (count c id s.log.sent ≡ 1)
      × (times id (s.pages c).resolved ≡ 1)
Reach-IsOrigin file lower g s c id r run is =
    let own = (Reach-IsMatched lower run).pages c in
    let (once, one) = settled_once (s.pages c) id (answered r) (own.once id) is in
    (settled_in lower s.log c id r (s.pages c).resolved is own.settled, own.counted id ∙ one, once)
