-- ===== src/Inspector/Words.antt =====
-- What web/src/components/Inspector.tsx says of an order, `describe` and `outcome`, and what the order ticket of
-- web/src/components/Terminal.tsx says of the same order. The texts of the source name these values.
use market_sandbox.Prelude.{
  ◌≡◌, refl, ◌⊎◌, inl, inr, Option, none, some, if◌then◌else◌, ite, ℤ, ◌-ℤ◌, arith, String,
  String_discrete,
}
use market_sandbox.Wire.{WireOrder, WireBatch, Side, OrderType, Status, Op}
use market_sandbox.Normalizer.{Normalizer, normalize, op_of, order_of}
use market_sandbox.Normalizer.Raw.{RawOrder, RawBatch, or_else, empty_order, text}
use market_sandbox.Gateway.Orders.{OrderReply, order_result}
use market_sandbox.Terminal.{
  Notice, was_rejected, was_filled, was_partly_filled, is_resting, notice,
}

-- The participant, or "You".
abbrev pub who : String → Option String
who node = ite (String_discrete node "human") none (some node)

pub data Description : Type 0 where
  cancels : Option String → String → Description
  asks_for : Option String → Option Side → ℤ → Option OrderType → Option ℤ → Description

-- `describe`; the price is said of a limit order only.
unfoldable pub describe : WireBatch → Description
describe b = elim b.op [
  | Op.cancel ↦ cancels (who b.order.node) b.order.id
  | Op.submit ↦
      asks_for (who b.order.node) b.order.side b.order.qty b.order.type (elim b.order.type [
        | some t ↦ elim t [ OrderType.limit ↦ some b.order.price | OrderType.market ↦ none ]
        | none ↦ none
      ])
]

pub data Outcome : Type 0 where
  cancelled not_found resting : Outcome
  rejected : String → Outcome
  filled : ℤ → ℤ → Outcome
  partly_filled : ℤ → ℤ → Outcome

-- `a || b` on texts
abbrev pub or_text : String → String → String
or_text a b = ite (String_discrete a "") b a

-- `outcome`, of an order and its operation.
unfoldable pub outcome_of : Op → WireOrder → Outcome
outcome_of Op.cancel o = if o.cancel_ok then cancelled else not_found
outcome_of Op.submit o = elim o.status [
  | none ↦ resting
  | some s ↦ elim s [
    | Status.rejected ↦ rejected (or_text o.reason "Rejected")
    | Status.filled ↦ filled o.filled o.avg
    | Status.partial ↦ partly_filled o.filled (o.qty -ℤ o.filled)
    | Status.queued ↦ resting
  ]
]

abbrev pub outcome : WireBatch → Outcome
outcome b = outcome_of b.op b.order

-- The texts of the exchange's statuses, in capital and in small letters.
pub record IsLower (lower : String → String) : Type 0 where
  pub of_filled : lower "FILLED" ≡ "filled"
  pub of_partial : lower "PARTIAL" ≡ "partial"
  pub of_queued : lower "QUEUED" ≡ "queued"
  pub of_rejected : lower "REJECTED" ≡ "rejected"

pub data IsStatus : Option String → Type 0 where
  is_filled : IsStatus (some "FILLED")
  is_partial : IsStatus (some "PARTIAL")
  is_queued : IsStatus (some "QUEUED")
  is_rejected : IsStatus (some "REJECTED")

-- The two say the same; but of a rejection without a reason, the ticket says nothing.
abbrev pub IsSame : Notice → Outcome → Type 0
IsSame (was_rejected why) (rejected why') = (why' ≡ why) ⊎ ((why ≡ "") × (why' ≡ "Rejected"))
IsSame (was_filled qty avg) (filled qty' avg') = (qty ≡ some qty') × (avg ≡ avg')
IsSame (was_partly_filled qty) (partly_filled qty' rest) = qty ≡ some qty'
IsSame (is_resting id) resting = Unit
IsSame _ _ = ⊥

same_reason :
    (why : String)
    → (or_text why "Rejected" ≡ why) ⊎ ((why ≡ "") × (or_text why "Rejected" ≡ "Rejected"))
same_reason why = elim (String_discrete why "") [
  | yes e ↦ inr (e, ground (arith, e))
  | no e ↦ inl ground (arith, e)
]

-- An order's reply and its telemetry.
abbrev pub reply_of : RawOrder → OrderReply
reply_of o = record {
  order_id = o.order_id;
  order_status = o.status;
  quantity = o.filled_quantity;
  avg_price = o.avg_price;
  rejection_reason = o.rejection_reason;
}

words-IsSame :
    (lower : String → String) (o : RawOrder) (st : Option String)
    → IsLower lower
    → IsStatus st
    → IsSame
        (notice (order_result lower (reply_of (record o { status = st }))))
        (outcome_of Op.submit (order_of (record o { status = st })))
unfolding notice outcome_of String_discrete
words-IsSame lower o _ low is_filled = rw low.of_filled (refl, refl)
words-IsSame lower o _ low is_partial = rw low.of_partial refl
words-IsSame lower o _ low is_queued = rw low.of_queued tt
words-IsSame lower o _ low is_rejected = rw low.of_rejected (same_reason (text o.rejection_reason))

-- The ticket and the Inspector say the same of a submission, when the reply of the exchange and its telemetry have
-- the same status, quantity, price and reason, and `toLowerCase` does what it should on the texts of the four statuses; only
-- of a rejection without a reason the ticket shows an empty text and the Inspector "Rejected".
pub notice-IsSame :
    (lower : String → String) (n : Normalizer) (raw : RawBatch) (now : ℤ)
    → let o = or_else raw.order empty_order in
      IsLower lower
      → IsStatus o.status
      → op_of o ≡ Op.submit
      → IsSame (notice (order_result lower (reply_of o))) (outcome (normalize n raw now).1)
unfolding normalize
notice-IsSame lower n raw now low st is_submit =
    let o = or_else raw.order empty_order in rw is_submit (words-IsSame lower o o.status low st)
