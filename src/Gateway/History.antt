-- ===== src/Gateway/History.antt =====
-- The history of web/gateway/server.ts, which a new page is sent.
use mathlib.Core.List.{append_assoc, append-nil}
use market_sandbox.Prelude.{
  ℕ, ◌-◌, ◌≤◌, ◌≡◌, refl, sym, ap, ◌∙◌, Option-cases, List, [], ◌∷◌, ◌++◌, length, drop, Bool-cases,
  inl, inr, arith, tests, ltb, ℤ, String, ◌||◌, length-append, length-drop, drop-drop,
  drop-append_of-le,
}
use market_sandbox.Wire.{WireBatch}
use market_sandbox.Normalizer.{normalize, flush_book}
use market_sandbox.Feed.Socket.{Message}
use market_sandbox.Gateway.{
  Gateway, Event, Post, to_all, to_client, retry, metadata, data_came, call_ended, resubscribed,
  timer, connected, disconnected, record_on, record_off, handle, run, history_max, keep, on_data,
  write_line, on_timer, down, once, on_metadata, subscribe, on_connection, on_disconnect,
  start_recording, stop_recording,
}

-- The last `n` entries.
abbrev pub take_last {ℓ} : {A : Type ℓ} → ℕ → List A → List A
take_last n xs = drop (length xs - n) xs

-- The batches that the gateway sends to all, in order.
abbrev pub batches_in : List Post → List WireBatch
batches_in [] = []
batches_in (to_all (Message.batch b) ∷ ps) = b ∷ batches_in ps
batches_in (_ ∷ ps) = batches_in ps

batches_in-append : (ps qs : List Post) → batches_in (ps ++ qs) ≡ batches_in ps ++ batches_in qs
batches_in-append [] qs = refl
batches_in-append (to_all (Message.hello r) ∷ ps) qs = batches_in-append ps qs
batches_in-append (to_all (Message.status u r) ∷ ps) qs = batches_in-append ps qs
batches_in-append (to_all (Message.history bs) ∷ ps) qs = batches_in-append ps qs
batches_in-append (to_all (Message.batch b) ∷ ps) qs = ap (◌∷◌ b) (batches_in-append ps qs)
batches_in-append (to_all (Message.book b) ∷ ps) qs = batches_in-append ps qs
batches_in-append (to_all (Message.result i r) ∷ ps) qs = batches_in-append ps qs
batches_in-append (to_all Message.other ∷ ps) qs = batches_in-append ps qs
batches_in-append (to_client c m ∷ ps) qs = batches_in-append ps qs
batches_in-append (retry ∷ ps) qs = batches_in-append ps qs

-- Entries that fall out before more are added would fall out after that, too.
take_last-append {ℓ} :
    {A : Type ℓ} (n : ℕ) (xs ys : List A)
    → take_last n (take_last n xs ++ ys) ≡ take_last n (xs ++ ys)
take_last-append n xs ys =
    let k = length xs - n in
    let joined = sym (drop-append_of-le k xs ys (omega arith)) in
    let sizes = length-drop k (xs ++ ys) in
    let total = length-append xs ys in
    ap (take_last n) joined
    ∙ drop-drop (length (drop k (xs ++ ys)) - n) k (xs ++ ys)
    ∙ ap (λ (m : ℕ). drop m (xs ++ ys)) (omega (arith, sizes, total))

keep-take_last :
    (b : WireBatch) (history : List WireBatch)
    → length history ≤ history_max
    → keep b history ≡ take_last history_max (history ++ b ∷ [])
unfolding keep
keep-take_last b history h =
    let all = history ++ b ∷ [] in
    let sizes = length-append history (b ∷ []) in
    elim (Bool-cases (ltb history_max (length all))) [
      | inl over ↦
          let one : length all - history_max ≡ 1 = omega (tests, sizes, over) in rw (over, one) refl
      | inr fits ↦
          let none_over : length all - history_max ≡ 0 = ground (arith, sizes) in
          rw (fits, none_over) refl
    ]

take_last_all {ℓ} : {A : Type ℓ} (n : ℕ) (xs : List A) → length xs ≤ n → take_last n xs ≡ xs
take_last_all n xs h = let none_over : length xs - n ≡ 0 = omega arith in rw none_over refl

write_line-history : (m : Message) (at : ℤ) (n : Gateway) → (write_line m at n).history ≡ n.history
unfolding write_line
write_line-history m at n = elim (Option-cases n.recorder) [
  | inl off ↦ rw (off, write_line) refl
  | inr (r, on) ↦ rw (on, write_line) refl
]

-- A handler that sends no batch and leaves the history.
abbrev IsQuiet : Gateway → Gateway × List Post → Type 0
IsQuiet g out = (out.0.history ≡ g.history) × (batches_in out.1 ≡ [])

module _ (g : Gateway) where
  on_timer-IsQuiet : (now : ℤ) → IsQuiet g (on_timer now g)
  unfolding on_timer
  on_timer-IsQuiet now = elim (Option-cases (flush_book g.normalizer).1) [
    | inl none_left ↦ rw (none_left, on_timer) (refl, refl)
    | inr (b, sent) ↦
        rw (sent, on_timer)
          (write_line-history (Message.book (record { at = now; book = b })) now _, refl)
  ]

  once-IsQuiet : IsQuiet g (once g)
  unfolding once down
  once-IsQuiet = elim (Bool-cases g.ended) [
    | inl again ↦ rw (again, once) (refl, refl)
    | inr first ↦ elim (Bool-cases (g.alive || g.exchange_up)) [
      | inl up ↦ rw (first, once, up) (refl, refl)
      | inr off ↦ rw (first, once, off) (refl, refl)
    ]
  ]

  start-IsQuiet : (file : String) → IsQuiet g (start_recording file g)
  unfolding start_recording
  start-IsQuiet file = elim (Option-cases g.recorder) [
    | inl off ↦ rw (off, start_recording) (refl, refl)
    | inr (r, on) ↦ rw (on, start_recording) (refl, refl)
  ]

  stop-IsQuiet : IsQuiet g (stop_recording g)
  unfolding stop_recording
  stop-IsQuiet = elim (Option-cases g.recorder) [
    | inl off ↦ rw (off, stop_recording) (refl, refl)
    | inr (r, on) ↦ rw (on, stop_recording) (refl, refl)
  ]

-- What a handler leaves as the history, from what it sends.
abbrev IsKept : Gateway → Gateway × List Post → Type 0
IsKept g out = out.0.history ≡ take_last history_max (g.history ++ batches_in out.1)

module _ (g : Gateway) (h : length g.history ≤ history_max) where
  quiet-IsKept : (out : Gateway × List Post) → IsQuiet g out → IsKept g out
  quiet-IsKept out (same, quiet) =
      same
      ∙ sym (take_last_all history_max g.history h)
      ∙ ap (take_last history_max) (sym (append-nil g.history) ∙ ap (◌++◌ g.history) (sym quiet))

  handle-IsKept : (e : Event) → IsKept g (handle e g)
  unfolding handle on_metadata on_data subscribe on_connection on_disconnect
  handle-IsKept metadata = quiet-IsKept (on_metadata g) (refl, refl)
  handle-IsKept (data_came raw now) =
      let batch = (normalize g.normalizer raw now).1 in
      write_line-history (Message.batch batch) batch.at _ ∙ keep-take_last batch g.history h
  handle-IsKept call_ended = quiet-IsKept (once g) (once-IsQuiet g)
  handle-IsKept resubscribed = quiet-IsKept (subscribe g) (refl, refl)
  handle-IsKept (timer now) = quiet-IsKept (on_timer now g) (on_timer-IsQuiet g now)
  handle-IsKept (connected c) = quiet-IsKept (on_connection c g) (refl, refl)
  handle-IsKept (disconnected c) = quiet-IsKept (on_disconnect c g) (refl, refl)
  handle-IsKept (record_on file) = quiet-IsKept (start_recording file g) (start-IsQuiet g file)
  handle-IsKept record_off = quiet-IsKept (stop_recording g) (stop-IsQuiet g)

-- The history is the last 600 of the batches that it held at first and those sent to all the pages since,
-- in order, whatever happens in between, if at first it held no more than 600.
pub run-history :
    (es : List Event) (g : Gateway)
    → length g.history ≤ history_max
    → (run es g).0.history ≡ take_last history_max (g.history ++ batches_in (run es g).1)
unfolding run
run-history [] g h =
    sym (take_last_all history_max g.history h)
    ∙ ap (take_last history_max) (sym (append-nil g.history))
run-history (e ∷ es) g h =
    let now = handle e g in
    let later = (run es now.0).1 in
    let kept = handle-IsKept g h e in
    let all = g.history ++ batches_in now.1 in
    let fits : length now.0.history ≤ history_max =
      omega (arith, ap length kept, length-drop (length all - history_max) all) in
    run-history es now.0 fits
    ∙ ap (λ (hs : List WireBatch). take_last history_max (hs ++ batches_in later)) kept
    ∙ take_last-append history_max all (batches_in later)
    ∙ ap (take_last history_max)
        (append_assoc g.history _ _ ∙ ap (◌++◌ g.history) (sym (batches_in-append now.1 later)))
