-- ===== src/Normalizer/Books.antt =====
-- The book updates of web/gateway/normalize.ts: which are sent with a batch, which wait for `flushBook`.
use market_sandbox.Prelude.{
  ◌≡◌, refl, sym, ◌∙◌, ap, ◌⊎◌, inl, inr, Option, none, some, List, [], ◌∷◌, ◌++◌, Bool-cases,
  length, ◌<◌, arith, ℤ, pos, ◌-ℤ◌, ◌≤ℤ◌, leb_ℤ,
}
use market_sandbox.Wire.{WireBook, WireTrade}
use market_sandbox.Normalizer.{Normalizer, flush_book, offer_book, normalize, book_of}
use market_sandbox.Normalizer.Raw.{RawBatch, RawBook}

-- What happens to the book of a message: nothing without one; sent, with nothing left waiting and the
-- clock set; or withheld, within 33 ms of the last one and with no trade, in the place of what waited.
pub data Offered (waiting : Option WireBook) (last : ℤ) (trades : List WireTrade) (now : ℤ)
    (n' : Normalizer) : Option RawBook → Option WireBook → Type 0 where
  absent :
      n'.pending_book ≡ waiting
      → n'.last_book_at ≡ last
      → Offered waiting last trades now n' none none
  sent :
      (b : RawBook)
      → (0 < length trades) ⊎ (pos 33 ≤ℤ now -ℤ last)
      → n'.pending_book ≡ none
      → n'.last_book_at ≡ now
      → Offered waiting last trades now n' (some b) (some (book_of b))
  withheld :
      (b : RawBook)
      → trades ≡ []
      → ¬ (pos 33 ≤ℤ now -ℤ last)
      → n'.pending_book ≡ some (book_of b)
      → n'.last_book_at ≡ last
      → Offered waiting last trades now n' (some b) none

offer_book-Offered :
    (b : Option RawBook) (trades : List WireTrade) (now : ℤ) (n : Normalizer)
    → Offered n.pending_book n.last_book_at trades now
        (offer_book b trades now n).0
        b
        (offer_book b trades now n).1
unfolding offer_book
offer_book-Offered none trades now n = absent refl refl
offer_book-Offered (some b) (t ∷ trades) now n = sent b (inl (omega arith)) refl refl
offer_book-Offered (some b) [] now n = elim (Bool-cases (leb_ℤ (pos 33) (now -ℤ n.last_book_at))) [
  | inl late ↦ rw (late, offer_book) (sent b (inr (ground arith)) refl refl)
  | inr early ↦ rw (early, offer_book) (withheld b refl (ground arith) refl refl)
]

-- A message's book is sent with its batch exactly when the batch has a trade or 33 ms have passed since
-- the last book was sent; then nothing is left waiting. Otherwise it takes the place of the book that
-- waited. A message without a book changes neither the waiting book nor the clock.
pub normalize-Offered :
    (n : Normalizer) (raw : RawBatch) (now : ℤ)
    → Offered n.pending_book n.last_book_at
        (normalize n raw now).1.trades
        now
        (normalize n raw now).0
        raw.book
        (normalize n raw now).1.book
unfolding normalize
normalize-Offered n raw now = offer_book-Offered raw.book _ now _

-- The gateway's uses of the normalizer: a message of the exchange, and the timer.
pub data Input : Type 0 where
  message : RawBatch → ℤ → Input
  timer : Input

-- The books that go out, in order.
abbrev pub sent_by : Option WireBook → List WireBook → List WireBook
sent_by none rest = rest
sent_by (some b) rest = b ∷ rest

pub run : Normalizer → List Input → Normalizer × List WireBook
run n [] = (n, [])
run n (message raw now ∷ is) =
    let (n', batch) = normalize n raw now in
    let (n'', out) = run n' is in (n'', sent_by batch.book out)
run n (timer ∷ is) =
    let (n', book) = flush_book n in let (n'', out) = run n' is in (n'', sent_by book out)

-- The last book that the exchange reported among some inputs, or an earlier one.
abbrev pub latest : Option WireBook → List Input → Option WireBook
latest b [] = b
latest b (timer ∷ is) = latest b is
latest b (message raw now ∷ is) = latest (elim raw.book [ none ↦ b | some r ↦ some (book_of r) ]) is

abbrev pub last_of : Option WireBook → List WireBook → Option WireBook
last_of b [] = b
last_of b (c ∷ cs) = last_of (some c) cs

-- What a page that has been sent `b` will show once the waiting book is flushed.
abbrev pub shown : Normalizer → Option WireBook → Option WireBook
shown n b = elim n.pending_book [ none ↦ b | some c ↦ some c ]

last_of-sent_by :
    (b c : Option WireBook) (out : List WireBook)
    → last_of b (sent_by c out) ≡ last_of (elim c [ none ↦ b | some d ↦ some d ]) out
last_of-sent_by b none out = refl
last_of-sent_by b (some d) out = refl

message_shown :
    {waiting : Option WireBook} {last : ℤ} {trades : List WireTrade} {now : ℤ} {n' : Normalizer}
    {raw : Option RawBook} {book : Option WireBook} (b : Option WireBook)
    → Offered waiting last trades now n' raw book
    → shown n' (elim book [ none ↦ b | some d ↦ some d ])
      ≡ elim raw [ none ↦ elim waiting [ none ↦ b | some c ↦ some c ] | some r ↦ some (book_of r) ]
message_shown b (absent p l) = ground arith
message_shown b (sent r t p l) = ground arith
message_shown b (withheld r t e p l) = ground arith

flush_shown :
    (n : Normalizer) (b : Option WireBook)
    → shown (flush_book n).0 (elim (flush_book n).1 [ none ↦ b | some d ↦ some d ]) ≡ shown n b
unfolding flush_book
flush_shown n b = refl

run-shown :
    (n : Normalizer) (b : Option WireBook) (is : List Input)
    → shown (run n is).0 (last_of b (run n is).1) ≡ latest (shown n b) is
unfolding run
run-shown n b [] = refl
run-shown n b (message raw now ∷ is) =
    let next = normalize n raw now in
    ap (shown (run next.0 is).0) (last_of-sent_by b next.1.book (run next.0 is).1)
    ∙ run-shown next.0 (elim next.1.book [ none ↦ b | some d ↦ some d ]) is
    ∙ ap (λ (c : Option WireBook). latest c is) (message_shown b (normalize-Offered n raw now))
run-shown n b (timer ∷ is) =
    let next = flush_book n in
    ap (shown (run next.0 is).0) (last_of-sent_by b next.1 (run next.0 is).1)
    ∙ run-shown next.0 (elim next.1 [ none ↦ b | some d ↦ some d ]) is
    ∙ ap (λ (c : Option WireBook). latest c is) (flush_shown n b)

latest_timer : (b : Option WireBook) (is : List Input) → latest b (is ++ timer ∷ []) ≡ latest b is
latest_timer b [] = refl
latest_timer b (message raw now ∷ is) =
    latest_timer (elim raw.book [ none ↦ b | some r ↦ some (book_of r) ]) is
latest_timer b (timer ∷ is) = latest_timer b is

run-flushed : (n : Normalizer) (is : List Input) → (run n (is ++ timer ∷ [])).0.pending_book ≡ none
unfolding run flush_book
run-flushed n [] = refl
run-flushed n (message raw now ∷ is) = run-flushed (normalize n raw now).0 is
run-flushed n (timer ∷ is) = run-flushed (record n { pending_book = none }) is

-- The newest book is kept and goes out: after any messages and timer ticks, the book that waits, or else
-- the last one that was sent, is the last one that the exchange reported. After the next timer tick no
-- book waits, and the last one sent is that one.
pub run-latest :
    (n : Normalizer) (b : Option WireBook) (is : List Input)
    → (shown (run n is).0 (last_of b (run n is).1) ≡ latest (shown n b) is)
      × ((run n (is ++ timer ∷ [])).0.pending_book ≡ none)
      × (last_of b (run n (is ++ timer ∷ [])).1 ≡ latest (shown n b) is)
run-latest n b is =
    let ticked = run n (is ++ timer ∷ []) in
    (
      run-shown n b is,
      run-flushed n is,
      sym (nothing_waits ticked.0 (last_of b ticked.1) (run-flushed n is))
          ∙ run-shown n b (is ++ timer ∷ [])
          ∙ latest_timer (shown n b) is,
    )
  where
    nothing_waits : (m : Normalizer) (c : Option WireBook) → m.pending_book ≡ none → shown m c ≡ c
    nothing_waits m c e = rw e refl
