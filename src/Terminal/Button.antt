-- ===== src/Terminal/Button.antt =====
-- What the button of web/src/components/Terminal.tsx says and what it does.
use market_sandbox.Prelude.{
  ℕ, ◌+◌, ◌≡◌, refl, ap, inl, inr, Option, none, some, List, Bool, true, false, Bool-cases, not,
  ◌||◌, if◌then◌else◌, ℤ, pos,
}
use market_sandbox.Wire.{Side, OrderType, market, limit}
use market_sandbox.Feed.{Feed}
use market_sandbox.Feed.Requests.{Requests, request}
use market_sandbox.Feed.Orders.{Ask, order, Start, sent, place_order, ask as ask_gateway}
use market_sandbox.Derive.Format.{fmt_price, IsNearestCent, fmt_price-IsNearestCent}
use market_sandbox.Derive.Stats.{BotStat, OpenOrder}
use market_sandbox.Terminal.{Ticket, is_market, is_positive, valid, asked_price, submit}
use market_sandbox.Terminal.Answered.{submit-sent, both}
use market_sandbox.Terminal.Form.{
  ButtonText, order_text, at_price, at_market, if_positive, price_text, button_text, form,
}

-- The text of the button announces a message under a number: its side, its type and its quantity, and the
-- price of a limit order to the cent.
pub data IsAnnounced (id : ℕ) : ButtonText → Ask → Type 0 where
  limit_order :
      (side : Side) (shown p q : ℤ)
      → IsNearestCent p shown
      → IsAnnounced id
          (order_text side (some q) (at_price shown))
          (order id side limit (some p) (some q))
  market_order :
      (side : Side) (q : ℤ)
      → IsAnnounced id
          (order_text side (some q) at_market)
          (order id side market (some (pos 0)) (some q))

-- The message of a submission.
abbrev pub message_of : Option Start → Option Ask
message_of (some (sent m)) = some m
message_of _ = none

text-IsAnnounced :
    (id : ℕ) (side : Side) (type : OrderType) (p q : Option ℤ)
    → is_positive q ≡ true
    → is_market type || is_positive p ≡ true
    → IsAnnounced id
        (order_text side (if_positive q) (price_text type p))
        (order id side type (if is_market type then some (pos 0) else p) q)
text-IsAnnounced id side type p none h k = absurd (cc h)
text-IsAnnounced id side market p (some q) h k = rw h (market_order side q)
text-IsAnnounced id side limit none (some q) h k = absurd (cc k)
text-IsAnnounced id side limit (some p) (some q) h k =
    rw (h, k) (limit_order side (fmt_price p) p q (fmt_price-IsNearestCent p))

button-IsAnnounced :
    (t : Ticket) (id : ℕ)
    → valid t ≡ true
    → t.busy ≡ false
    → IsAnnounced id (button_text t) (order id t.side t.type (asked_price t) t.q)
unfolding valid button_text
button-IsAnnounced t id is_valid free =
    let (some_qty, some_price) =
      both (is_positive t.q) (is_market t.type || is_positive t.p) is_valid in
    rw free (text-IsAnnounced id t.side t.type t.p t.q some_qty some_price)

-- What is sent, by whether the button may be pressed.
abbrev pub IsSubmitted : ℕ → Bool → ButtonText → Option Start → Type 0
IsSubmitted id true text start = (m : Ask) × (message_of start ≡ some m) × IsAnnounced id text m
IsSubmitted id false text start = message_of start ≡ none

submit-stopped :
    (can : Bool) (t : Ticket) (s : Requests)
    → not (valid t) || t.busy ≡ true
    → submit can t s ≡ (t, s, none)
unfolding submit
submit-stopped can t s stops = rw stops refl

submit-offline :
    (t : Ticket) (s : Requests)
    → not (valid t) || t.busy ≡ false
    → (message_of (submit false t s).2 ≡ none) × ((submit false t s).1 ≡ s)
unfolding submit place_order ask_gateway request
submit-offline t s goes = rw (goes, submit) (refl, refl)

-- Neither invalid nor on its way.
goes_on : (v b : Bool) → not v || b ≡ false → (v ≡ true) × (b ≡ false)
goes_on true false h = (refl, refl)
goes_on true true h = absurd (cc h)
goes_on false b h = absurd (cc h)

stopped :
    (can : Bool) (t : Ticket) (s : Requests)
    → not (valid t) || t.busy ≡ true
    → (message_of (submit can t s).2 ≡ none) × ((submit can t s).1 ≡ s)
stopped can t s stops = rw (submit-stopped can t s stops) (refl, refl)

sent_off :
    (t : Ticket) (s : Requests)
    → not (valid t) || t.busy ≡ false
    → IsSubmitted (s.req_id + 1) true (button_text t) (submit true t s).2
      × ((submit true t s).1 ≡ (request true s).0)
sent_off t s goes =
    let (is_valid, free) = goes_on (valid t) t.busy goes in
    let is = submit-sent t s is_valid free in
    (
      (
        order (s.req_id + 1) t.side t.type (asked_price t) t.q,
        ap (λ (x : Ticket × Requests × Option Start). message_of x.2) is,
        button-IsAnnounced t (s.req_id + 1) is_valid free,
      ),
      ap (λ (x : Ticket × Requests × Option Start). x.1) is,
    )

-- What a submission does, by whether there is an exchange and whether it is stopped.
submitted :
    (can : Bool) (t : Ticket) (s : Requests)
    → let may = not (not can || not (valid t) || t.busy) in
      IsSubmitted (s.req_id + 1) may (button_text t) (submit can t s).2
      × ((submit can t s).1 ≡ (request may s).0)
unfolding request
submitted true t s = elim (Bool-cases (not (valid t) || t.busy)) [
  | inl stops ↦ rw stops (stopped true t s stops)
  | inr goes ↦ rw goes (sent_off t s goes)
]
submitted false t s = elim (Bool-cases (not (valid t) || t.busy)) [
  | inl stops ↦ stopped false t s stops
  | inr goes ↦ submit-offline t s goes
]

-- Where the button of the ticket may be pressed, its text announces an order, and pressing it sends that order under
-- the page's next number: the side, the type and the quantity that the text names, and for a limit order
-- a price that the text shows rounded to the nearest cent. Where it may not be pressed, submitting the form
-- sends nothing and leaves the requests as they are.
pub form-submit :
    (f : Feed) (can : Bool) (open_orders : List OpenOrder) (me : Option BotStat) (t : Ticket)
    (s : Requests)
    → let shown = form f can open_orders me t in
      let (t', s', start) = submit can t s in
      IsSubmitted (s.req_id + 1) shown.may_submit shown.button start
      × (s' ≡ (request shown.may_submit s).0)
unfolding form
form-submit f can open_orders me t s = submitted can t s
