-- ===== src/Page/Pick.antt =====
-- From a click on a row of the order book in web/src/components/Workspace.tsx through web/src/App.tsx and the ticket of
-- web/src/components/Terminal.tsx to the call of the exchange in web/gateway/server.ts.
use market_sandbox.Prelude.{
  ℕ, ◌+◌, ◌≡◌, refl, ap, ◌∙◌, some, Option, [], true, false, ℤ, pos, ◌+ℤ◌, ◌<ℤ◌, ◌≤ℤ◌, String,
  arith,
}
use market_sandbox.Wire.{Side, Level, bid, ask, limit}
use market_sandbox.Derive.Format.{
  cent, fmt_price, IsNearestCent, fmt_price-IsNearestCent, fmt_price_positive,
}
use market_sandbox.Feed.Requests.{Requests, request}
use market_sandbox.Feed.Orders.{order, sent, Start}
use market_sandbox.Gateway.{Gateway}
use market_sandbox.Gateway.Orders
use market_sandbox.Gateway.Orders.{on_ask}
use market_sandbox.Terminal.{Ticket, valid, submit, is_positive}
use market_sandbox.Terminal.Answered.{submit-sent}
use market_sandbox.Page.{Page, picked, handle, on_prefill}

-- The side that trades against a side.
abbrev pub opposite : Side → Side
opposite bid = ask
opposite ask = bid

is_positive_of : (v : ℤ) → pos 0 <ℤ v → is_positive (some v) ≡ true
is_positive_of v h = ground (arith, h)

-- The ticket after a click on a row.
abbrev pub picked_ticket : Side → Level → ℤ → Page → Ticket → Ticket
picked_ticket side l now p t = on_prefill (handle (picked side l now) p) t

picked-valid :
    (side : Side) (l : Level) (now q : ℤ) (p : Page) (t : Ticket)
    → pos 0 <ℤ fmt_price l.0
    → pos 0 <ℤ q
    → t.q ≡ some q
    → valid (picked_ticket side l now p t) ≡ true
unfolding valid handle on_prefill
picked-valid bid l now q p t some_price some_qty is_q =
    rw (is_q, is_positive_of q some_qty, is_positive_of (fmt_price l.0) some_price) refl
picked-valid ask l now q p t some_price some_qty is_q =
    rw (is_q, is_positive_of q some_qty, is_positive_of (fmt_price l.0) some_price) refl

-- What "submit" leaves of a ticket, with one message of a limit order.
abbrev sent_as : Ticket → Requests → Side → ℤ → Option ℤ → Ticket × Requests × Option Start
sent_as t s side price q = (
  record t { busy = true },
  (request true s).0,
  some (sent (order (s.req_id + 1) side limit (some price) q)),
)

picked-sent :
    (side : Side) (l : Level) (now q : ℤ) (p : Page) (t : Ticket) (s : Requests)
    → t.q ≡ some q
    → t.busy ≡ false
    → valid (picked_ticket side l now p t) ≡ true
    → submit true (picked_ticket side l now p t) s
      ≡ sent_as (picked_ticket side l now p t) s (opposite side) (fmt_price l.0) (some q)
unfolding handle on_prefill
picked-sent bid l now q p t s is_q free is_valid =
    submit-sent (picked_ticket bid l now p t) s is_valid free
    ∙ ap (sent_as (picked_ticket bid l now p t) s ask (fmt_price l.0)) is_q
picked-sent ask l now q p t s is_q free is_valid =
    submit-sent (picked_ticket ask l now p t) s is_valid free
    ∙ ap (sent_as (picked_ticket ask l now p t) s bid (fmt_price l.0)) is_q

called :
    (file : String) (n : ℕ) (side : Side) (price q : ℤ) (g : Gateway)
    → on_ask file (order n (opposite side) limit (some price) (some q)) g ≡ (
      (g, []),
      some (
          Orders.submit_order "human"
            (elim side [ bid ↦ "ASK" | ask ↦ "BID" ])
            "LIMIT"
            price
            (some q)),
    )
unfolding on_ask
called file n bid price q g = refl
called file n ask price q g = refl

-- A click on a row of the book at a price of at least half a cent, whatever the ticket held before, and then
-- "submit", where there is an exchange, the quantity is positive and no order is on its way: the ticket is
-- sent once, and the gateway calls the exchange for a limit order in the name of the page's user, on the
-- opposite side of that row, with the ticket's quantity, at the row's price rounded to the nearest cent.
pub picked-submit :
    (side : Side) (l : Level) (now q : ℤ) (p : Page) (t : Ticket) (s : Requests) (g : Gateway)
    (file : String)
    → pos cent ≤ℤ l.0 +ℤ l.0
    → pos 0 <ℤ q
    → t.q ≡ some q
    → t.busy ≡ false
    → let filled = picked_ticket side l now p t in
      let message = order (s.req_id + 1) (opposite side) limit (some (fmt_price l.0)) (some q) in
      (submit true filled s
        ≡ (record filled { busy = true }, (request true s).0, some (sent message)))
      × (on_ask file message g ≡ (
        (g, []),
        some (
            Orders.submit_order "human"
              (elim side [ bid ↦ "ASK" | ask ↦ "BID" ])
              "LIMIT"
              (fmt_price l.0)
              (some q)),
      ))
      × IsNearestCent l.0 (fmt_price l.0)
picked-submit side l now q p t s g file some_price some_qty is_q free =
    let shown = fmt_price_positive l.0 some_price in
    (
      picked-sent side l now q p t s is_q free (picked-valid side l now q p t shown some_qty is_q),
      called file (s.req_id + 1) side (fmt_price l.0) q g,
      fmt_price-IsNearestCent l.0,
    )
