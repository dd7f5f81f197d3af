-- ===== src/Gateway.antt =====
-- web/gateway/server.ts: the gateway between the exchange and the pages. A handler returns the new state
-- and what it sends; the socket library sends a broadcast to the clients that are open. The lines of the
-- recording's stream are kept as the messages they print, and the clock's reading is an argument.
pub mod History
pub mod Recording
pub mod Greeting
pub mod Retries
pub mod Live
pub mod Orders
pub mod Args
pub mod Demo
pub mod Processes
pub mod Bots
pub mod Startup
pub mod Tests
use market_sandbox.Prelude.{
  ℕ, ◌+◌, Option, none, some, List, [], ◌∷◌, ◌++◌, length, drop, map, Bool, true, false, ◌||◌,
  if◌then◌else◌, ltb, ℤ, String, ◌==◌,
}
use market_sandbox.Wire.{WireBatch, WireBook, BookFrame}
use market_sandbox.Roster.{announced}
use market_sandbox.Normalizer
use market_sandbox.Normalizer.{Normalizer, normalize, flush_book}
use market_sandbox.Normalizer.Raw.{RawBatch, or_else}
use market_sandbox.Feed.Socket.{Message}

pub record Recorder : Type 0 where
  pub file : String
  pub first : Option ℤ
  pub count : ℕ
  pub written : List Message

-- The module's variables, and those of the current call of `subscribeTelemetry`.
pub record Gateway : Type 0 where
  pub clients : List ℕ
  pub history : List WireBatch
  pub normalizer : Normalizer
  pub exchange_up : Bool
  pub recorder : Option Recorder
  pub alive : Bool
  pub ended : Bool

abbrev pub initial : Gateway
initial = record {
  clients = [];
  history = [];
  normalizer = Normalizer.initial;
  exchange_up = false;
  recorder = none;
  alive = false;
  ended = false;
}

-- HISTORY_MAX
abbrev pub history_max : ℕ
history_max = 600

-- What a handler does outside: `broadcast`, `send`, and the new subscription in a second.
pub data Post : Type 0 where
  to_all : Message → Post
  to_client : ℕ → Message → Post
  retry : Post

abbrev pub status : Gateway → Message
status g = Message.status g.exchange_up (elim g.recorder [ none ↦ none | some r ↦ some r.file ])

-- `record`
unfoldable pub write_line : Message → ℤ → Gateway → Gateway
write_line msg at g = elim g.recorder [
  | none ↦ g
  | some r ↦ record g {
    recorder = some (record r {
      first = some (or_else r.first at);
      written = r.written ++ msg ∷ [];
      count = r.count + 1;
    });
  }
]

unfoldable pub start_recording : String → Gateway → Gateway × List Post
start_recording file g = elim g.recorder [
  | some r ↦ (g, [])
  | none ↦
      let r : Recorder = record {
        file = file;
        first = none;
        count = 0;
        written = Message.hello announced ∷ [];
      } in
      let g' = record g { recorder = some r } in (g', to_all (status g') ∷ [])
]

unfoldable pub stop_recording : Gateway → Gateway × List Post
stop_recording g = elim g.recorder [
  | none ↦ (g, [])
  | some r ↦ let g' = record g { recorder = none } in (g', to_all (status g') ∷ [])
]

-- The handler of "metadata".
unfoldable pub on_metadata : Gateway → Gateway × List Post
on_metadata g =
    let g' = record g { alive = true; exchange_up = true } in (g', to_all (status g') ∷ [])

unfoldable pub keep : WireBatch → List WireBatch → List WireBatch
keep b history =
    let all = history ++ b ∷ [] in if ltb history_max (length all) then drop 1 all else all

-- The handler of "data".
unfoldable pub on_data : RawBatch → ℤ → Gateway → Gateway × List Post
unfolding keep write_line
on_data raw now g =
    let (n, batch) = normalize g.normalizer raw now in
    let g' = record g { normalizer = n; history = keep batch g.history } in
    (write_line (Message.batch batch) batch.at g', to_all (Message.batch batch) ∷ [])

unfoldable pub down : Gateway → Gateway × List Post
down g =
    if g.alive || g.exchange_up
    then (let g' = record g { alive = false; exchange_up = false } in
        (g', to_all (status g') ∷ retry ∷ []))
    else (g, retry ∷ [])

-- `once`, the handler of "error" and "end".
unfoldable pub once : Gateway → Gateway × List Post
unfolding down
once g = if g.ended then (g, []) else down (record g { ended = true })

-- The timer of 50 ms.
unfoldable pub on_timer : ℤ → Gateway → Gateway × List Post
unfolding write_line
on_timer now g =
    let (n, waiting) = flush_book g.normalizer in
    let g' = record g { normalizer = n } in
    elim waiting [
      | none ↦ (g', [])
      | some book ↦
          let msg = Message.book (record { at = now; book = book }) in
          (write_line msg now g', to_all msg ∷ [])
    ]

-- The handler of "connection", for a new client.
unfoldable pub on_connection : ℕ → Gateway → Gateway × List Post
on_connection c g =
    let g' = record g { clients = g.clients ++ c ∷ [] } in
    (
      g',
      to_client c (Message.hello announced)
          ∷ to_client c (status g')
          ∷ to_client c (Message.history g'.history)
          ∷ [],
    )

unfoldable pub without : ℕ → List ℕ → List ℕ
without c [] = []
without c (d ∷ ds) = let rest = without c ds in if c == d then rest else d ∷ rest

-- The handler of "close".
unfoldable pub on_disconnect : ℕ → Gateway → Gateway × List Post
unfolding without
on_disconnect c g = (record g { clients = without c g.clients }, [])

-- `subscribeTelemetry` gives the handlers new variables.
unfoldable pub subscribe : Gateway → Gateway × List Post
subscribe g = (record g { alive = false; ended = false }, [])

pub data Event : Type 0 where
  metadata : Event
  data_came : RawBatch → ℤ → Event
  call_ended : Event
  resubscribed : Event
  timer : ℤ → Event
  connected : ℕ → Event
  disconnected : ℕ → Event
  record_on : String → Event
  record_off : Event

unfoldable pub handle : Event → Gateway → Gateway × List Post
handle metadata g = on_metadata g
handle (data_came raw now) g = on_data raw now g
handle call_ended g = once g
handle resubscribed g = subscribe g
handle (timer now) g = on_timer now g
handle (connected c) g = on_connection c g
handle (disconnected c) g = on_disconnect c g
handle (record_on file) g = start_recording file g
handle record_off g = stop_recording g

unfoldable pub run : List Event → Gateway → Gateway × List Post
run [] g = (g, [])
run (e ∷ es) g = let (g', now) = handle e g in let (end, later) = run es g' in (end, now ++ later)
