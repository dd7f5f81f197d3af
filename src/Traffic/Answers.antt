-- ===== src/Traffic/Answers.antt =====
-- What holds of several pages and of all that is on its way, whatever the order of messages, calls, answers and timers.
use market_sandbox.Prelude.{
  IsIn, All-one, All-rest, ℕ, zero, suc, ◌≡◌, refl, sym, subst, inl, inr, Option, none, some,
  Option-cases, List, [], ◌∷◌, ◌++◌, Bool, true, false, arith, All, All-append, All-imp, String,
}
use market_sandbox.Feed.Socket.{OrderResult}
use market_sandbox.Feed.Requests.{Outcome, answered, time_out, made}
use market_sandbox.Feed.Requests.Settled.{initial-IsOnce}
use market_sandbox.Feed.Orders.{Ask, order, cancel, record_on}
use market_sandbox.Gateway.{Gateway, to_all, status, start_recording, stop_recording}
use market_sandbox.Gateway.Orders
use market_sandbox.Gateway.Orders.{on_ask, on_outcome, result_of}
use market_sandbox.Traffic.{
  Log, Ended, sent_more, ended_more, Traffic, initial, Wish, wish, call, Step, wishes, arrives,
  ends, gets, expires, loses_message, loses_post, goes_on, Reach, here, next,
}
use market_sandbox.Traffic.Origin.{
  count, IsOrigin, IsPosted, IsSettled, IsSent, IsMatched, result_of-number,
}
use market_sandbox.Traffic.Pages.{later-IsPosted, time_out-IsOwn, update-IsOwn, deliver-IsOwn}
use market_sandbox.Traffic.Sending.{
  start-sent, start-refused, sent-IsWithin, ended-IsWithin, ended-IsOwn, request-IsOwn,
}

module _ (lower : String → String) where
  wish-IsMatched :
      (c : ℕ) (w : Wish) (can : Bool) (s : Traffic)
      → IsMatched lower s
      → IsMatched lower (wish c w can s)
  unfolding wish
  wish-IsMatched c w false s h =
      let (r, refused_) = start-refused w (s.pages c) in
      rw refused_ (record {
        pages = update-IsOwn lower s.log c (s.pages c) s.pages (h.pages c) h.pages;
        on_way = h.on_way;
        at_exchange = h.at_exchange;
        on_way_back = h.on_way_back;
      })
  wish-IsMatched c w true s h =
      let (m, sent_, new) = start-sent w (s.pages c) in
      rw sent_ (record {
        pages = request-IsOwn lower c m s.log s.pages new h.pages;
        on_way =
            All-append (IsSent lower (sent_more c m s.log)) s.asked ((c, m) ∷ [])
              (All-imp s.asked (λ e own. inr own) h.on_way) (inl refl, tt);
        at_exchange = All-imp s.called (λ e own. inr own) h.at_exchange;
        on_way_back =
            All-imp s.posted
              (later-IsPosted lower s.log (sent_more c m s.log) (sent-IsWithin c m s.log))
              h.on_way_back;
      })

  call-IsSent :
      (c : ℕ) (m : Ask) (k : Option Orders.Call) (log : Log) (calls : List (ℕ × Ask))
      → IsIn (c, m) log.sent
      → All (IsSent lower log) calls
      → All (IsSent lower log) (call c m k calls)
  call-IsSent c m none log calls own h = h
  call-IsSent c m (some k) log calls own h =
      All-append (IsSent lower log) calls ((c, m) ∷ []) h (own, tt)

  to_all-status : (g : Gateway) (log : Log) → IsPosted lower log (to_all (status g))
  to_all-status g log = tt

  -- The gateway posts no result before the exchange has answered.
  on_ask-IsPosted :
      (file : String) (m : Ask) (g : Gateway) (log : Log)
      → All (IsPosted lower log) (on_ask file m g).0.1
  unfolding on_ask start_recording stop_recording
  on_ask-IsPosted file (order id side type price qty) g log = tt
  on_ask-IsPosted file (cancel id order_id) g log = tt
  on_ask-IsPosted file (record_on true) g log = elim (Option-cases g.recorder) [
    | inl off ↦ rw (off, start_recording) (tt, tt)
    | inr (r, on) ↦ rw (on, start_recording) tt
  ]
  on_ask-IsPosted file (record_on false) g log = elim (Option-cases g.recorder) [
    | inl off ↦ rw (off, stop_recording) tt
    | inr (r, on) ↦ rw (on, stop_recording) (tt, tt)
  ]

  outcome-IsPosted :
      (c : ℕ) (m : Ask) (outcome : Orders.Outcome) (g : Gateway) (log : Log)
      → IsIn (c, m) log.sent
      → IsIn (record { page = c; message = m; outcome = outcome; gateway = g }) log.ended
      → All (IsPosted lower log) (on_outcome lower c m outcome g)
  unfolding on_outcome
  outcome-IsPosted c m outcome g log own came = elim (Option-cases (result_of lower m outcome g)) [
    | inl silent ↦ rw (silent, on_outcome) tt
    | inr ((id, r), is) ↦
        rw (is, on_outcome)
          (
            record {
              m = m;
              outcome = outcome;
              g = g;
              sent_by = own;
              came_back = came;
              numbered = result_of-number lower m outcome g id r is;
              result = is;
            },
            tt,
          )
  ]

  Step-IsMatched :
      {file : String} {s t : Traffic} → Step file lower s t → IsMatched lower s → IsMatched lower t
  Step-IsMatched {s = s} (wishes c w can) h = wish-IsMatched c w can s h
  Step-IsMatched {file} {s = s} (arrives c m before after is) h =
      let asks : All (IsSent lower s.log) (before ++ (c, m) ∷ after) =
        subst (All (IsSent lower s.log)) is h.on_way in
      record {
        pages = h.pages;
        on_way = All-rest (IsSent lower s.log) (c, m) before after asks;
        at_exchange =
            call-IsSent c m (on_ask file m s.gateway).1 s.log s.called
              (All-one (IsSent lower s.log) (c, m) before after asks) h.at_exchange;
        on_way_back =
            All-append (IsPosted lower s.log) s.posted (on_ask file m s.gateway).0.1 h.on_way_back
              (on_ask-IsPosted file m s.gateway s.log);
      }
  Step-IsMatched {s = s} (ends c m outcome before after is) h =
      let e : Ended = record { page = c; message = m; outcome = outcome; gateway = s.gateway } in
      let log = ended_more e s.log in
      let within = ended-IsWithin e s.log in
      let calls : All (IsSent lower s.log) (before ++ (c, m) ∷ after) =
        subst (All (IsSent lower s.log)) is h.at_exchange in
      record {
        pages = λ j. ended-IsOwn lower e s.log j (s.pages j) (h.pages j);
        on_way = h.on_way;
        at_exchange = All-rest (IsSent lower s.log) (c, m) before after calls;
        on_way_back =
            All-append (IsPosted lower log) s.posted (on_outcome lower c m outcome s.gateway)
              (All-imp s.posted (later-IsPosted lower s.log log within) h.on_way_back)
              (outcome-IsPosted c m outcome s.gateway log
                (All-one (IsSent lower s.log) (c, m) before after calls) (inl refl));
      }
  Step-IsMatched {s = s} (gets p before after is) h =
      let posts : All (IsPosted lower s.log) (before ++ p ∷ after) =
        subst (All (IsPosted lower s.log)) is h.on_way_back in
      record {
        pages =
            deliver-IsOwn lower s.log p s.pages
              (All-one (IsPosted lower s.log) p before after posts) h.pages;
        on_way = h.on_way;
        at_exchange = h.at_exchange;
        on_way_back = All-rest (IsPosted lower s.log) p before after posts;
      }
  Step-IsMatched {s = s} (expires c id) h = record {
    pages =
        update-IsOwn lower s.log c (time_out id (s.pages c)) s.pages
          (time_out-IsOwn lower s.log c (s.pages c) id (h.pages c)) h.pages;
    on_way = h.on_way;
    at_exchange = h.at_exchange;
    on_way_back = h.on_way_back;
  }
  Step-IsMatched {s = s} (loses_message c m before after is) h = record {
    pages = h.pages;
    on_way =
        All-rest (IsSent lower s.log) (c, m) before after
          (subst (All (IsSent lower s.log)) is h.on_way);
    at_exchange = h.at_exchange;
    on_way_back = h.on_way_back;
  }
  Step-IsMatched {s = s} (loses_post p before after is) h = record {
    pages = h.pages;
    on_way = h.on_way;
    at_exchange = h.at_exchange;
    on_way_back =
        All-rest (IsPosted lower s.log) p before after
          (subst (All (IsPosted lower s.log)) is h.on_way_back);
  }
  Step-IsMatched {s = s} (goes_on g) h = record {
    pages = h.pages;
    on_way = h.on_way;
    at_exchange = h.at_exchange;
    on_way_back = h.on_way_back;
  }

  counted_nothing : (c id : ℕ) → count c id [] ≡ made id 0
  counted_nothing c zero = refl
  counted_nothing c (suc id) = ground arith

  initial-IsMatched : (g : Gateway) → IsMatched lower (initial g)
  initial-IsMatched g = record {
    pages = λ c. record { once = initial-IsOnce; counted = counted_nothing c; settled = tt };
    on_way = tt;
    at_exchange = tt;
    on_way_back = tt;
  }

  pub Reach-IsMatched :
      {file : String} {g : Gateway} {s : Traffic} → Reach file lower g s → IsMatched lower s
  Reach-IsMatched {g = g} here = initial-IsMatched g
  Reach-IsMatched (next before now) = Step-IsMatched now (Reach-IsMatched before)

  pub settled_in :
      (log : Log) (c id : ℕ) (r : OrderResult) (done : List (ℕ × Outcome))
      → IsIn (id, answered r) done
      → All (IsSettled lower log c) done
      → IsOrigin lower log c id r
  settled_in log c id r [] is h = absurd is
  settled_in log c id r (x ∷ xs) (inl same) h = subst (IsSettled lower log c) (sym same) h.0
  settled_in log c id r (x ∷ xs) (inr later) h = settled_in log c id r xs later h.1
