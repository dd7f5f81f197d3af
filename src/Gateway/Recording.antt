-- ===== src/Gateway/Recording.antt =====
-- The recordings of web/gateway/server.ts, and what web/src/feed.ts reads back from one.
use mathlib.Core.List.{append_assoc, append-nil, map-append}
use market_sandbox.Prelude.{
  ◌+◌, ◌≡◌, refl, sym, ap, ◌∙◌, none, some, Option-cases, List, [], ◌∷◌, ◌++◌, length, map,
  Bool-cases, inl, inr, arith, ℤ, String, All, length-append, ◌||◌,
}
use market_sandbox.Wire.{Frame, RosterEntry, of_batch, of_book}
use market_sandbox.Roster.{announced}
use market_sandbox.Normalizer.{normalize, flush_book}
use market_sandbox.Feed.Socket.{Message, read_lines}
use market_sandbox.Gateway.{
  Gateway, Recorder, Event, Post, to_all, to_client, retry, metadata, data_came, call_ended,
  resubscribed, timer, connected, disconnected, record_on, record_off, handle, run, on_data,
  write_line, on_timer, down, once, on_metadata, subscribe, on_connection, on_disconnect,
  start_recording,
}

-- The frames that the gateway sends to all, in order.
abbrev pub frames_in : List Post → List Frame
frames_in [] = []
frames_in (to_all (Message.batch b) ∷ ps) = of_batch b ∷ frames_in ps
frames_in (to_all (Message.book b) ∷ ps) = of_book b ∷ frames_in ps
frames_in (_ ∷ ps) = frames_in ps

frames_in-append : (ps qs : List Post) → frames_in (ps ++ qs) ≡ frames_in ps ++ frames_in qs
frames_in-append [] qs = refl
frames_in-append (to_all (Message.hello r) ∷ ps) qs = frames_in-append ps qs
frames_in-append (to_all (Message.status u r) ∷ ps) qs = frames_in-append ps qs
frames_in-append (to_all (Message.history bs) ∷ ps) qs = frames_in-append ps qs
frames_in-append (to_all (Message.batch b) ∷ ps) qs = ap (◌∷◌ (of_batch b)) (frames_in-append ps qs)
frames_in-append (to_all (Message.book b) ∷ ps) qs = ap (◌∷◌ (of_book b)) (frames_in-append ps qs)
frames_in-append (to_all (Message.result i r) ∷ ps) qs = frames_in-append ps qs
frames_in-append (to_all Message.other ∷ ps) qs = frames_in-append ps qs
frames_in-append (to_client c m ∷ ps) qs = frames_in-append ps qs
frames_in-append (retry ∷ ps) qs = frames_in-append ps qs

-- The message that carries a frame.
abbrev pub carried : Frame → Message
carried (of_batch b) = Message.batch b
carried (of_book b) = Message.book b

read_lines-carried :
    (fs : List Frame) (roster : List RosterEntry)
    → read_lines (map carried fs) roster ≡ (roster, fs)
unfolding read_lines
read_lines-carried [] roster = refl
read_lines-carried (of_batch b ∷ fs) roster =
    let rest = read_lines-carried fs roster in
    ap (λ (r : List RosterEntry × List Frame). (r.0, of_batch b ∷ r.1)) rest
read_lines-carried (of_book b ∷ fs) roster =
    let rest = read_lines-carried fs roster in
    ap (λ (r : List RosterEntry × List Frame). (r.0, of_book b ∷ r.1)) rest

-- The events between the start of a recording and its end.
abbrev pub IsWhileOn : Event → Type 0
IsWhileOn record_off = ⊥
IsWhileOn _ = Unit

-- A recorder after some posts.
abbrev IsWritten : Recorder → Gateway × List Post → Type 0
IsWritten r out =
    (r' : Recorder) × (out.0.recorder ≡ some r')
    × (r'.written ≡ r.written ++ map carried (frames_in out.1))
    × (r'.count ≡ r.count + length (frames_in out.1))

module _ (g : Gateway) (r : Recorder) (on : g.recorder ≡ some r) where
  quiet-IsWritten :
      (out : Gateway × List Post)
      → out.0.recorder ≡ g.recorder
      → frames_in out.1 ≡ []
      → IsWritten r out
  quiet-IsWritten out same quiet = (
    r,
    same ∙ on,
    sym (append-nil r.written) ∙ ap (λ (fs : List Frame). r.written ++ map carried fs) (sym quiet),
    omega (arith, ap length quiet),
  )

  line-IsWritten :
      (f : Frame) (at : ℤ) (n : Gateway)
      → n.recorder ≡ g.recorder
      → IsWritten r (write_line (carried f) at n, to_all (carried f) ∷ [])
  unfolding write_line
  line-IsWritten (of_batch b) at n same = rw (same ∙ on, write_line) (_, refl, refl, refl)
  line-IsWritten (of_book b) at n same = rw (same ∙ on, write_line) (_, refl, refl, refl)

  on_timer-IsWritten : (now : ℤ) → IsWritten r (on_timer now g)
  unfolding on_timer
  on_timer-IsWritten now = elim (Option-cases (flush_book g.normalizer).1) [
    | inl none_left ↦ rw (none_left, on_timer) (r, on, sym (append-nil r.written), omega arith)
    | inr (b, sent) ↦
        rw (sent, on_timer) (line-IsWritten (of_book (record { at = now; book = b })) now _ refl)
  ]

  once-IsWritten : IsWritten r (once g)
  unfolding once down
  once-IsWritten = elim (Bool-cases g.ended) [
    | inl again ↦ rw (again, once) (quiet-IsWritten (g, []) refl refl)
    | inr first ↦ elim (Bool-cases (g.alive || g.exchange_up)) [
      | inl up ↦ rw (first, once, up) (r, on, sym (append-nil r.written), omega arith)
      | inr off ↦ rw (first, once, off) (r, on, sym (append-nil r.written), omega arith)
    ]
  ]

  handle-IsWritten : (e : Event) → IsWhileOn e → IsWritten r (handle e g)
  unfolding handle on_metadata on_data subscribe on_connection on_disconnect start_recording
  handle-IsWritten metadata h = quiet-IsWritten (on_metadata g) refl refl
  handle-IsWritten (data_came raw now) h =
      let batch = (normalize g.normalizer raw now).1 in
      line-IsWritten (of_batch batch) batch.at _ refl
  handle-IsWritten call_ended h = once-IsWritten
  handle-IsWritten resubscribed h = quiet-IsWritten (subscribe g) refl refl
  handle-IsWritten (timer now) h = on_timer-IsWritten now
  handle-IsWritten (connected c) h = quiet-IsWritten (on_connection c g) refl refl
  handle-IsWritten (disconnected c) h = quiet-IsWritten (on_disconnect c g) refl refl
  handle-IsWritten (record_on file) h = rw (on, start_recording) (quiet-IsWritten (g, []) refl refl)
  handle-IsWritten record_off h = elim h [ ]

run-IsWritten :
    (es : List Event) (g : Gateway) (r : Recorder)
    → All IsWhileOn es
    → g.recorder ≡ some r
    → IsWritten r (run es g)
unfolding run
run-IsWritten [] g r h on = (r, on, sym (append-nil r.written), omega arith)
run-IsWritten (e ∷ es) g r h on =
    let now = handle e g in
    let (r1, on1, lines1, count1) = handle-IsWritten g r on e h.0 in
    let (r2, on2, lines2, count2) = run-IsWritten es now.0 r1 h.1 on1 in
    let both = frames_in-append now.1 (run es now.0).1 in
    (
      r2,
      on2,
      lines2
          ∙ ap (λ (ls : List Message). ls ++ map carried (frames_in (run es now.0).1)) lines1
          ∙ append_assoc r.written _ _
          ∙ ap (◌++◌ r.written) (
              sym (map-append carried (frames_in now.1) (frames_in (run es now.0).1))
              ∙ ap (map carried) (sym both)),
      omega (
        arith,
        count1,
        count2,
        ap length both,
        length-append (frames_in now.1) (frames_in (run es now.0).1),
      ),
    )

-- A recording is what the pages saw: if one is started and not stopped, then after any events the page
-- that reads its lines gets the roster of the gateway and exactly the frames that were sent to all pages
-- since the start, in order, and the count of the recorder is their number.
pub recording-read_lines :
    (file : String) (es : List Event) (g : Gateway) (known : List RosterEntry)
    → g.recorder ≡ none
    → All IsWhileOn es
    → let out = run es (start_recording file g).0 in
      (r : Recorder) × (out.0.recorder ≡ some r)
      × (read_lines r.written known ≡ (announced, frames_in out.1))
      × (r.count ≡ length (frames_in out.1))
unfolding start_recording read_lines
recording-read_lines file es g known off h =
    let start : Recorder = record {
      file = file;
      first = none;
      count = 0;
      written = Message.hello announced ∷ [];
    } in
    let on : (start_recording file g).0.recorder ≡ some start = rw (off, start_recording) refl in
    let (r, kept, lines, count) = run-IsWritten es (start_recording file g).0 start h on in
    (
      r,
      kept,
      ap (λ (ls : List Message). read_lines ls known) lines ∙ read_lines-carried _ announced,
      omega (arith, count),
    )
