-- ===== src/Gateway/Live.antt =====
-- A page of web/src/feed.ts that stays connected to the gateway of web/gateway/server.ts.
use mathlib.Core.List.{append_assoc, append-nil}
use market_sandbox.Prelude.{
  length-map, ℕ, ◌+◌, ◌≤◌, ◌≡◌, refl, sym, ap, ◌∙◌, Option, Option-cases, List, [], ◌∷◌, ◌++◌,
  length, map, true, Bool, inl, inr, arith, ℤ, String, All, All-append, length-append,
}
use market_sandbox.Wire.{Frame, of_batch, of_book}
use market_sandbox.Normalizer.{normalize, flush_book}
use market_sandbox.Feed
use market_sandbox.Feed.{Feed, Source, is_live, max_frames, trim}
use market_sandbox.Feed.Socket.{Message, on_message, dispatch, on_status, on_frame}
use market_sandbox.Gateway.{
  Gateway, Event, Post, to_all, to_client, retry, metadata, data_came, call_ended, resubscribed,
  timer, connected, disconnected, record_on, record_off, handle, run, on_data, write_line, on_timer,
  on_metadata, subscribe, on_connection, on_disconnect, start_recording, stop_recording,
}
use market_sandbox.Gateway.Recording.{frames_in}
use market_sandbox.Gateway.Greeting.{messages_to, read_all, push_small, greeting-IsShowing}

-- The messages to all clients, in order.
abbrev pub broadcasts : List Post → List Message
broadcasts [] = []
broadcasts (to_all m ∷ ps) = m ∷ broadcasts ps
broadcasts (_ ∷ ps) = broadcasts ps

-- What is sent while the exchange is up.
abbrev pub IsSteady : Post → Type 0
IsSteady (to_all (Message.status up r)) = up ≡ true
IsSteady (to_all (Message.batch b)) = Unit
IsSteady (to_all (Message.book b)) = Unit
IsSteady (to_all m) = ⊥
IsSteady _ = Unit

live_frame :
    (x : Frame) (f : Feed)
    → f.source ≡ Source.live
    → length (f.frames ++ x ∷ []) ≤ max_frames + trim
    → on_frame x f ≡ record f { frames = f.frames ++ x ∷ []; dirty = true }
unfolding on_frame
live_frame x f live h =
    let on : is_live f.source ≡ true = ap is_live live in
    rw (on, on_frame) (push_small (x ∷ []) f h)

live_status :
    (r : Option String) (now : ℤ) (f : Feed)
    → f.source ≡ Source.live
    → (on_status true r now f).0 ≡ record f { recording = r; exchange_up = true }
unfolding on_status
live_status r now f live = rw (live, on_status) refl

-- One more frame, from what holds of the page that has it.
live_more :
    (x : Frame) (ps : List Post) (now : ℤ) (f : Feed)
    → f.source ≡ Source.live
    → length f.frames + length (x ∷ frames_in ps) ≤ max_frames + trim
    → (let g = record f { frames = f.frames ++ x ∷ []; dirty = true } in
        (read_all (broadcasts ps) now g).frames ≡ g.frames ++ frames_in ps)
    → (read_all (broadcasts ps) now (record (on_frame x f) { dirty = true })).frames
      ≡ f.frames ++ x ∷ frames_in ps
live_more x ps now f live h k =
    let sizes = length-append f.frames (x ∷ []) in
    let same = live_frame x f live (omega (arith, sizes)) in
    ap (λ (g : Feed). (read_all (broadcasts ps) now (record g { dirty = true })).frames) same
    ∙ k
    ∙ append_assoc f.frames (x ∷ []) (frames_in ps)

room :
    (x : Frame) (f : Feed) (fs : List Frame)
    → length f.frames + length (x ∷ fs) ≤ max_frames + trim
    → length (f.frames ++ x ∷ []) + length fs ≤ max_frames + trim
room x f fs h = omega (arith, length-append f.frames (x ∷ []))

read_live :
    (ps : List Post) (now : ℤ) (f : Feed)
    → f.source ≡ Source.live
    → All IsSteady ps
    → length f.frames + length (frames_in ps) ≤ max_frames + trim
    → (read_all (broadcasts ps) now f).frames ≡ f.frames ++ frames_in ps
unfolding read_all on_message dispatch
read_live [] now f live s h = sym (append-nil f.frames)
read_live (to_all (Message.batch b) ∷ ps) now f live s h = live_more (of_batch b) ps now f live h (
    read_live ps now (record f { frames = f.frames ++ of_batch b ∷ []; dirty = true }) live s.1
      (room (of_batch b) f (frames_in ps) h))
read_live (to_all (Message.book b) ∷ ps) now f live s h = live_more (of_book b) ps now f live h (
    read_live ps now (record f { frames = f.frames ++ of_book b ∷ []; dirty = true }) live s.1
      (room (of_book b) f (frames_in ps) h))
read_live (to_all (Message.status up r) ∷ ps) now f live s h =
    ap
      (λ (u : Bool).
        (read_all (broadcasts ps) now (record (on_status u r now f).0 { dirty = true })).frames)
      s.0
    ∙ ap (λ (g : Feed). (read_all (broadcasts ps) now (record g { dirty = true })).frames)
        (live_status r now f live)
    ∙ read_live ps now (record f { recording = r; exchange_up = true; dirty = true }) live s.1 h
read_live (to_all (Message.hello r) ∷ ps) now f live s h = elim s.0 [ ]
read_live (to_all (Message.history bs) ∷ ps) now f live s h = elim s.0 [ ]
read_live (to_all (Message.result i r) ∷ ps) now f live s h = elim s.0 [ ]
read_live (to_all Message.other ∷ ps) now f live s h = elim s.0 [ ]
read_live (to_client c m ∷ ps) now f live s h = read_live ps now f live s.1 h
read_live (retry ∷ ps) now f live s h = read_live ps now f live s.1 h

read_all-append :
    (ms ns : List Message) (now : ℤ) (f : Feed)
    → read_all (ms ++ ns) now f ≡ read_all ns now (read_all ms now f)
unfolding read_all
read_all-append [] ns now f = refl
read_all-append (m ∷ ms) ns now f = read_all-append ms ns now (on_message m now f).0

-- The events while the exchange stays up.
abbrev pub IsUp : Event → Type 0
IsUp call_ended = ⊥
IsUp _ = Unit

abbrev IsUpAfter : Gateway × List Post → Type 0
IsUpAfter out = (out.0.exchange_up ≡ true) × All IsSteady out.1

write_line-up :
    (m : Message) (at : ℤ) (g : Gateway)
    → g.exchange_up ≡ true
    → (write_line m at g).exchange_up ≡ true
unfolding write_line
write_line-up m at g up = elim (Option-cases g.recorder) [
  | inl off ↦ rw (off, write_line) up
  | inr (r, on) ↦ rw (on, write_line) up
]

module _ (g : Gateway) (up : g.exchange_up ≡ true) where
  on_timer-IsUpAfter : (now : ℤ) → IsUpAfter (on_timer now g)
  unfolding on_timer
  on_timer-IsUpAfter now = elim (Option-cases (flush_book g.normalizer).1) [
    | inl none_left ↦ rw (none_left, on_timer) (up, tt)
    | inr (b, sent) ↦
        let same =
          write_line-up (Message.book (record { at = now; book = b })) now
            (record g { normalizer = (flush_book g.normalizer).0 }) up in
        rw (sent, on_timer) (same, (tt, tt))
  ]

  start-IsUpAfter : (file : String) → IsUpAfter (start_recording file g)
  unfolding start_recording
  start-IsUpAfter file = elim (Option-cases g.recorder) [
    | inl off ↦ rw (off, start_recording) (up, (up, tt))
    | inr (r, on) ↦ rw (on, start_recording) (up, tt)
  ]

  stop-IsUpAfter : IsUpAfter (stop_recording g)
  unfolding stop_recording
  stop-IsUpAfter = elim (Option-cases g.recorder) [
    | inl off ↦ rw (off, stop_recording) (up, tt)
    | inr (r, on) ↦ rw (on, stop_recording) (up, (up, tt))
  ]

  handle-IsUpAfter : (e : Event) → IsUp e → IsUpAfter (handle e g)
  unfolding handle on_metadata on_data subscribe on_connection on_disconnect
  handle-IsUpAfter metadata h = (refl, (refl, tt))
  handle-IsUpAfter (data_came raw now) h =
      let out = normalize g.normalizer raw now in
      (write_line-up (Message.batch out.1) out.1.at _ up, (tt, tt))
  handle-IsUpAfter call_ended h = elim h [ ]
  handle-IsUpAfter resubscribed h = (up, tt)
  handle-IsUpAfter (timer now) h = on_timer-IsUpAfter now
  handle-IsUpAfter (connected c) h = (up, (tt, (tt, (tt, tt))))
  handle-IsUpAfter (disconnected c) h = (up, tt)
  handle-IsUpAfter (record_on file) h = start-IsUpAfter file
  handle-IsUpAfter record_off h = stop-IsUpAfter

run-IsUpAfter :
    (es : List Event) (g : Gateway) → g.exchange_up ≡ true → All IsUp es → IsUpAfter (run es g)
unfolding run
run-IsUpAfter [] g up h = (up, tt)
run-IsUpAfter (e ∷ es) g up h =
    let now = handle-IsUpAfter g up e h.0 in
    let later = run-IsUpAfter es (handle e g).0 now.0 h.1 in
    (later.0, All-append IsSteady (handle e g).1 (run es (handle e g).0).1 now.1 later.1)

-- A page that connects while the exchange is up and reads what it is sent, greeting and broadcasts, has the
-- history that the gateway held when it connected and every frame sent to all since, in order, as long as
-- the exchange stays up and these frames are at most 22,000.
pub connected_page-frames :
    (c : ℕ) (es : List Event) (g : Gateway) (now : ℤ)
    → g.exchange_up ≡ true
    → All IsUp es
    → let joined = on_connection c g in
      let sent = (run es joined.0).1 in
      length g.history + length (frames_in sent) ≤ max_frames + trim
      → (read_all (messages_to c joined.1 ++ broadcasts sent) now Feed.initial).frames
        ≡ map of_batch g.history ++ frames_in sent
unfolding on_connection
connected_page-frames c es g now up h small =
    let joined = on_connection c g in
    let sent = (run es joined.0).1 in
    let page = read_all (messages_to c joined.1) now Feed.initial in
    let greeted = greeting-IsShowing c g now up (omega arith) in
    let steady = (run-IsUpAfter es joined.0 up h).1 in
    let fits : length page.frames + length (frames_in sent) ≤ max_frames + trim =
      omega (arith, ap length greeted.frames, length-map of_batch g.history) in
    ap (λ (f : Feed). f.frames)
      (read_all-append (messages_to c joined.1) (broadcasts sent) now Feed.initial)
    ∙ read_live sent now page greeted.live steady fits
    ∙ ap (λ (fs : List Frame). fs ++ frames_in sent) greeted.frames
