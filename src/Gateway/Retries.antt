-- ===== src/Gateway/Retries.antt =====
-- The end of a telemetry call in web/gateway/server.ts, which "error" and "end" both report.
use market_sandbox.Prelude.{
  ℕ, ◌+◌, ◌≡◌, refl, ap, Option-cases, List, [], ◌∷◌, ◌++◌, Bool, true, false, Bool-cases, inl, inr,
  arith, ℤ, String, All, ◌||◌,
}
use market_sandbox.Normalizer.{normalize, flush_book}
use market_sandbox.Feed.Socket.{Message}
use market_sandbox.Gateway.{
  Gateway, Event, Post, to_all, to_client, retry, metadata, data_came, call_ended, resubscribed,
  timer, connected, disconnected, record_on, record_off, handle, run, on_data, write_line, on_timer,
  down, once, on_metadata, on_connection, on_disconnect, start_recording, stop_recording,
}

-- How many new subscriptions are asked for.
abbrev pub retries : List Post → ℕ
retries [] = 0
retries (retry ∷ ps) = 1 + retries ps
retries (to_all m ∷ ps) = retries ps
retries (to_client c m ∷ ps) = retries ps

abbrev pub one_if : Bool → ℕ
one_if true = 1
one_if false = 0

-- The events of one subscription.
abbrev pub IsOfCall : Event → Type 0
IsOfCall resubscribed = ⊥
IsOfCall _ = Unit

retries-append : (ps qs : List Post) → retries (ps ++ qs) ≡ retries ps + retries qs
retries-append [] qs = omega arith
retries-append (retry ∷ ps) qs = omega (arith, retries-append ps qs)
retries-append (to_all m ∷ ps) qs = retries-append ps qs
retries-append (to_client c m ∷ ps) qs = retries-append ps qs

write_line-ended : (m : Message) (at : ℤ) (g : Gateway) → (write_line m at g).ended ≡ g.ended
unfolding write_line
write_line-ended m at g = elim (Option-cases g.recorder) [
  | inl off ↦ rw (off, write_line) refl
  | inr (r, on) ↦ rw (on, write_line) refl
]

-- A handler asks for a new subscription exactly when the call ends in it.
abbrev IsAsked : Gateway → Gateway × List Post → Type 0
IsAsked g out = retries out.1 + one_if g.ended ≡ one_if out.0.ended

module _ (g : Gateway) where
  on_timer-IsAsked : (now : ℤ) → IsAsked g (on_timer now g)
  unfolding on_timer
  on_timer-IsAsked now = elim (Option-cases (flush_book g.normalizer).1) [
    | inl none_left ↦ rw (none_left, on_timer) (omega arith)
    | inr (b, sent) ↦
        let same =
          write_line-ended (Message.book (record { at = now; book = b })) now
            (record g { normalizer = (flush_book g.normalizer).0 }) in
        rw (sent, on_timer) (omega (arith, ap one_if same))
  ]

  once-IsAsked : IsAsked g (once g)
  unfolding once down
  once-IsAsked = elim (Bool-cases g.ended) [
    | inl again ↦ rw (again, once) (omega (arith, ap one_if again))
    | inr first ↦ elim (Bool-cases (g.alive || g.exchange_up)) [
      | inl up ↦ rw (first, once, up) (omega (arith, ap one_if first))
      | inr off ↦ rw (first, once, off) (omega (arith, ap one_if first))
    ]
  ]

  start-IsAsked : (file : String) → IsAsked g (start_recording file g)
  unfolding start_recording
  start-IsAsked file = elim (Option-cases g.recorder) [
    | inl off ↦ rw (off, start_recording) (omega arith)
    | inr (r, on) ↦ rw (on, start_recording) (omega arith)
  ]

  stop-IsAsked : IsAsked g (stop_recording g)
  unfolding stop_recording
  stop-IsAsked = elim (Option-cases g.recorder) [
    | inl off ↦ rw (off, stop_recording) (omega arith)
    | inr (r, on) ↦ rw (on, stop_recording) (omega arith)
  ]

  handle-IsAsked : (e : Event) → IsOfCall e → IsAsked g (handle e g)
  unfolding handle on_metadata on_data on_connection on_disconnect
  handle-IsAsked metadata h = omega arith
  handle-IsAsked (data_came raw now) h =
      let (n, batch) = normalize g.normalizer raw now in
      omega (arith, ap one_if (write_line-ended (Message.batch batch) batch.at _))
  handle-IsAsked call_ended h = once-IsAsked
  handle-IsAsked resubscribed h = elim h [ ]
  handle-IsAsked (timer now) h = on_timer-IsAsked now
  handle-IsAsked (connected c) h = omega arith
  handle-IsAsked (disconnected c) h = omega arith
  handle-IsAsked (record_on file) h = start-IsAsked file
  handle-IsAsked record_off h = stop-IsAsked

-- However often the end of a telemetry call is reported, and whatever happens besides, the gateway asks for
-- a new subscription once if the call has ended, and not before: through any events up to the next
-- subscription, the number of requests and the flag of the end at first add up to the flag at the end.
pub run-retries :
    (es : List Event) (g : Gateway)
    → All IsOfCall es
    → retries (run es g).1 + one_if g.ended ≡ one_if (run es g).0.ended
unfolding run
run-retries [] g h = omega arith
run-retries (e ∷ es) g h =
    let now = handle e g in
    omega (
      arith,
      retries-append now.1 (run es now.0).1,
      handle-IsAsked g e h.0,
      run-retries es now.0 h.1,
    )
