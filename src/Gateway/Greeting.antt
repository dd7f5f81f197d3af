-- ===== src/Gateway/Greeting.antt =====
-- What web/gateway/server.ts sends a new page, read by web/src/feed.ts.
use market_sandbox.Prelude.{
  length-map, ℕ, ◌+◌, ◌≤◌, ◌≡◌, refl, Option, none, some, List, [], ◌∷◌, ◌++◌, length, map,
  Bool-cases, inl, inr, arith, ltb, ◌==◌, ℤ, true, String, if◌then◌else◌,
}
use market_sandbox.Wire.{Frame, WireBatch, of_batch}
use market_sandbox.Roster.{announced}
use market_sandbox.Feed
use market_sandbox.Feed.{
  Feed, Source, ClockMode, max_frames, trim, last_of, push, set_follow, bump, reset,
}
use market_sandbox.Feed.Socket.{
  Message, on_message, dispatch, on_status, on_history, switch_to_live,
}
use market_sandbox.Gateway.{Gateway, Post, to_client, status, on_connection}

-- The messages to one client.
abbrev pub messages_to : ℕ → List Post → List Message
messages_to c [] = []
messages_to c (to_client d m ∷ ps) =
    let rest = messages_to c ps in if c == d then m ∷ rest else rest
messages_to c (_ ∷ ps) = messages_to c ps

-- A page reads messages at one time of its clock.
unfoldable pub read_all : List Message → ℤ → Feed → Feed
unfolding on_message
read_all [] now f = f
read_all (m ∷ ms) now f = read_all ms now (on_message m now f).0

-- A page that shows the live market: the frames, all of them seen, and the clock at the last one.
pub record IsShowing (shown : List Frame) (f : Feed) : Type 0 where
  pub live : f.source ≡ Source.live
  pub roster : f.roster ≡ announced
  pub frames : f.frames ≡ shown
  pub cursor : f.cursor ≡ length shown
  pub mode : f.clock_mode ≡ ClockMode.follow
  pub vt : f.vt ≡ last_of shown

pub push_small :
    (new : List Frame) (f : Feed)
    → length (f.frames ++ new) ≤ max_frames + trim
    → push new f ≡ record f { frames = f.frames ++ new; dirty = true }
unfolding push
push_small new f h = elim (Bool-cases (ltb (max_frames + trim) (length (f.frames ++ new)))) [
  | inl over ↦ absurd (ground arith)
  | inr fits ↦ rw fits refl
]

greeting_messages :
    (c : ℕ) (g : Gateway)
    → messages_to c (on_connection c g).1
      ≡ Message.hello announced ∷ status g ∷ Message.history g.history ∷ []
unfolding on_connection
greeting_messages c g = let same : (c == c) ≡ true = ground arith in rw same refl

-- The page after "hello" and a "status" that the exchange is up.
abbrev joined : Option String → ℤ → Feed
joined name now = record Feed.initial {
  roster = announced;
  source = Source.live;
  exchange_up = true;
  recording = name;
  version = 1;
  dirty = true;
  last_notify = now;
}

joined-history :
    (name : Option String) (now : ℤ) (bs : List WireBatch)
    → length (map of_batch bs) ≤ max_frames + trim
    → IsShowing (map of_batch bs) (on_message (Message.history bs) now (joined name now)).0
unfolding on_message dispatch on_history set_follow
joined-history name now bs h =
    rw (push_small (map of_batch bs) (joined name now) h)
      (record { live = refl; roster = refl; frames = refl; cursor = refl; mode = refl; vt = refl })

-- A page that connects while the exchange is up shows the gateway's history: a new Feed that reads the three
-- messages of the gateway's greeting follows the live market with the batches of the history as its
-- frames, if they are at most 22,000.
pub greeting-IsShowing :
    (c : ℕ) (g : Gateway) (now : ℤ)
    → g.exchange_up ≡ true
    → length g.history ≤ max_frames + trim
    → IsShowing
        (map of_batch g.history)
        (read_all (messages_to c (on_connection c g).1) now Feed.initial)
unfolding on_connection read_all on_message dispatch on_status switch_to_live reset bump on_history
    set_follow
greeting-IsShowing c g now up h =
    let fits : length (map of_batch g.history) ≤ max_frames + trim =
      omega (arith, length-map of_batch g.history) in
    rw (greeting_messages c g, up)
      (joined-history (elim g.recorder [ none ↦ none | some r ↦ some r.file ]) now g.history fits)
