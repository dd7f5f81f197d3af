-- ===== src/Traffic.antt =====
-- The requests of several pages at once: each page with the requests of web/src/feed.ts, the gateway with the handler
-- of "message" of web/gateway/server.ts, and the messages, calls and answers on their way between them. Every page
-- numbers its requests from 1, calls end in any order, a timer may fire at any time, and a socket that
-- closes loses what is on its way.
pub mod Origin
pub mod Pages
pub mod Sending
pub mod Answers
pub mod Own
pub mod Tests
use market_sandbox.Prelude.{
  ℕ, ◌+◌, ◌≡◌, Option, none, some, List, [], ◌∷◌, ◌++◌, Bool, ite, ℤ, String, ℕ_discrete,
}
use market_sandbox.Wire.{Side, OrderType}
use market_sandbox.Feed.Socket.{Message}
use market_sandbox.Feed.Requests
use market_sandbox.Feed.Requests.{Requests, on_result, time_out}
use market_sandbox.Feed.Orders.{Ask, Start, refused, sent, place_order, cancel_order}
use market_sandbox.Gateway.{Gateway, Post, to_all, to_client, retry}
use market_sandbox.Gateway.Orders
use market_sandbox.Gateway.Orders.{Call, on_ask, on_outcome}

-- The end of a call: the page and its message, what came of it, and the gateway at that time.
pub record Ended : Type 0 where
  pub page : ℕ
  pub message : Ask
  pub outcome : Orders.Outcome
  pub gateway : Gateway

-- The messages that the pages have sent, and the calls that have ended, the last first.
pub record Log : Type 0 where
  pub sent : List (ℕ × Ask)
  pub ended : List Ended

abbrev pub sent_more : ℕ → Ask → Log → Log
sent_more c m log = record log { sent = (c, m) ∷ log.sent }

abbrev pub ended_more : Ended → Log → Log
ended_more e log = record log { ended = e ∷ log.ended }

-- The pages by their numbers at the gateway, and what is on its way: to the gateway, at the exchange, and back.
-- `log` remembers what has happened.
pub record Traffic : Type 0 where
  pub pages : ℕ → Requests
  pub gateway : Gateway
  pub asked : List (ℕ × Ask)
  pub called : List (ℕ × Ask)
  pub posted : List Post
  pub log : Log

abbrev pub initial : Gateway → Traffic
initial g = record {
  pages = λ c. Requests.initial;
  gateway = g;
  asked = [];
  called = [];
  posted = [];
  log = record { sent = []; ended = [] };
}

abbrev pub update : ℕ → Requests → (ℕ → Requests) → ℕ → Requests
update c s pages j = ite (ℕ_discrete j c) s (pages j)

-- What a page's user wants.
pub data Wish : Type 0 where
  to_place : Side → OrderType → Option ℤ → Option ℤ → Wish
  to_cancel : String → Wish

abbrev pub start : Wish → Bool → Requests → Requests × Start
start (to_place side type price qty) can s = place_order can side type price qty s
start (to_cancel id) can s = cancel_order can id s

-- A request of a page that is refused at once sends nothing.
abbrev pub send : ℕ → Start → Traffic → Traffic
send c (refused r) s = s
send c (sent m) s = record s { asked = s.asked ++ (c, m) ∷ []; log = sent_more c m s.log }

unfoldable pub wish : ℕ → Wish → Bool → Traffic → Traffic
wish c w can s =
    let (p, begun) = start w can (s.pages c) in
    send c begun (record s { pages = update c p s.pages })

-- The call of a message, which is remembered with the message until it ends.
abbrev pub call : ℕ → Ask → Option Call → List (ℕ × Ask) → List (ℕ × Ask)
call c m none calls = calls
call c m (some k) calls = calls ++ (c, m) ∷ []

-- A page that gets a message; only a "result" concerns its requests.
abbrev pub receive : Message → Requests → Requests
receive (Message.result id r) s = on_result id r s
receive _ s = s

-- Who gets what the gateway sends.
abbrev pub deliver : Post → (ℕ → Requests) → ℕ → Requests
deliver (to_all m) pages = λ j. receive m (pages j)
deliver (to_client c m) pages = update c (receive m (pages c)) pages
deliver retry pages = pages

pub data Step (file : String) (lower : String → String) (s : Traffic) : Traffic → Type 0 where
  wishes : (c : ℕ) (w : Wish) (can : Bool) → Step file lower s (wish c w can s)
  arrives :
      (c : ℕ) (m : Ask) (before after : List (ℕ × Ask))
      → s.asked ≡ before ++ (c, m) ∷ after
      → Step file lower s (record s {
        gateway = (on_ask file m s.gateway).0.0;
        asked = before ++ after;
        called = call c m (on_ask file m s.gateway).1 s.called;
        posted = s.posted ++ (on_ask file m s.gateway).0.1;
      })
  ends :
      (c : ℕ) (m : Ask) (outcome : Orders.Outcome) (before after : List (ℕ × Ask))
      → s.called ≡ before ++ (c, m) ∷ after
      → Step file lower s (record s {
        called = before ++ after;
        posted = s.posted ++ on_outcome lower c m outcome s.gateway;
        log =
            ended_more
              (record { page = c; message = m; outcome = outcome; gateway = s.gateway })
              s.log;
      })
  gets :
      (p : Post) (before after : List Post)
      → s.posted ≡ before ++ p ∷ after
      → Step file lower s (record s { pages = deliver p s.pages; posted = before ++ after })
  expires :
      (c id : ℕ)
      → Step file lower s (record s { pages = update c (time_out id (s.pages c)) s.pages })
  loses_message :
      (c : ℕ) (m : Ask) (before after : List (ℕ × Ask))
      → s.asked ≡ before ++ (c, m) ∷ after
      → Step file lower s (record s { asked = before ++ after })
  loses_post :
      (p : Post) (before after : List Post)
      → s.posted ≡ before ++ p ∷ after
      → Step file lower s (record s { posted = before ++ after })
  goes_on : (g : Gateway) → Step file lower s (record s { gateway = g })

pub data Reach (file : String) (lower : String → String) (g : Gateway) : Traffic → Type 0 where
  here : Reach file lower g (initial g)
  next : {s t : Traffic} → Reach file lower g s → Step file lower s t → Reach file lower g t
