-- ===== src/Feed/Socket.antt =====
-- The connection of web/src/feed.ts: `onMessage`, `switchToLive`, the socket's `onclose`, and `useReplay`,
-- which waits for a fetch and is two functions here: up to the fetch, and from its outcome on.
use market_sandbox.Prelude.{
  ℕ, Option, none, some, List, [], ◌∷◌, map, Bool, true, false, not, ◌&&◌, if◌then◌else◌, ℤ, pos,
  String,
}
use market_sandbox.Wire.{Frame, WireBatch, BookFrame, RosterEntry, of_batch, of_book}
use market_sandbox.Feed.{
  Feed, Source, ClockMode, normal_speed, is_live, bump, first_at, push, reset, set_follow,
}

pub record OrderResult : Type 0 where
  pub ok : Bool
  pub order_id : Option String
  pub status : Option String
  pub filled : Option ℤ
  pub avg : Option ℤ
  pub reason : Option String

-- A message by its `t`; `other` is any other value.
pub data Message : Type 0 where
  hello : List RosterEntry → Message
  status : Bool → Option String → Message
  history : List WireBatch → Message
  batch : WireBatch → Message
  book : BookFrame → Message
  result : ℕ → OrderResult → Message
  other : Message

-- `switchToLive`
unfoldable pub switch_to_live : ℤ → Feed → Feed
unfolding reset bump
switch_to_live now f = bump now (record (reset Source.live f) {
  clock_mode = ClockMode.follow;
  speed = normal_speed;
  vt = pos 0;
})

-- `useReplay` up to its first `await`: does it go on to fetch the recording?
unfoldable pub wants_replay : Feed → Bool
wants_replay f = not (is_live f.source)

abbrev pub is_empty : List Frame → Bool
is_empty [] = true
is_empty (x ∷ xs) = false

-- The message "status": the new state, and whether the recording is fetched.
unfoldable pub on_status : Bool → Option String → ℤ → Feed → Feed × Bool
unfolding switch_to_live wants_replay
on_status up recording now f =
    let g = record f { recording = recording; exchange_up = up } in
    if up && not (is_live g.source)
    then (switch_to_live now g, false)
    else if not up && is_live g.source && is_empty g.frames
    then (g, wants_replay g)
    else (g, false)

unfoldable pub on_history : List WireBatch → Feed → Feed
unfolding set_follow push
on_history batches f =
    if is_live f.source && is_empty f.frames then set_follow (push (map of_batch batches) f) else f

unfoldable pub on_frame : Frame → Feed → Feed
unfolding push
on_frame x f = if is_live f.source then push (x ∷ []) f else f

-- The `switch` of `onMessage`; a "result" concerns the requests only.
unfoldable pub dispatch : Message → ℤ → Feed → Feed × Bool
unfolding on_status on_history on_frame
dispatch (hello roster) now f = (record f { roster = roster }, false)
dispatch (status up recording) now f = on_status up recording now f
dispatch (history batches) now f = (on_history batches f, false)
dispatch (batch b) now f = (on_frame (of_batch b) f, false)
dispatch (book b) now f = (on_frame (of_book b) f, false)
dispatch (result id r) now f = (f, false)
dispatch other now f = (f, false)

-- `onMessage`
unfoldable pub on_message : Message → ℤ → Feed → Feed × Bool
unfolding dispatch
on_message m now f = let (g, fetches) = dispatch m now f in (record g { dirty = true }, fetches)

-- The socket's `onclose`; a retry is scheduled in every case.
unfoldable pub closed_source : ClockMode → Feed → Feed × Bool
unfolding wants_replay
closed_source mode f =
    let g = record f { source = Source.replay } in
    if is_empty g.frames
    then (g, wants_replay g)
    else (elim mode [ ClockMode.follow ↦ record g { clock_mode = ClockMode.pause } | _ ↦ g ], false)

unfoldable pub on_close : ℤ → Feed → Feed × Bool
unfolding closed_source bump
on_close now f =
    let g = record f { exchange_up = false } in
    let (h, fetches) =
      let out : Feed × Bool =
        if is_live g.source then closed_source g.clock_mode g else (g, false) in
      out in
    (bump now h, fetches)

-- The loop of `useReplay` over the lines of the recording.
unfoldable pub read_lines : List Message → List RosterEntry → List RosterEntry × List Frame
read_lines [] roster = (roster, [])
read_lines (hello r ∷ ms) roster = read_lines ms r
read_lines (batch b ∷ ms) roster =
    let (last, frames) = read_lines ms roster in (last, of_batch b ∷ frames)
read_lines (book b ∷ ms) roster =
    let (last, frames) = read_lines ms roster in (last, of_book b ∷ frames)
read_lines (_ ∷ ms) roster = read_lines ms roster

-- `useReplay` from the outcome of the fetch: the parsed lines, or `none` for anything that throws.
unfoldable pub replay_fetched : Option (List Message) → ℤ → Feed → Feed
unfolding bump read_lines reset push
replay_fetched none now f = bump now (record f { source = Source.replay })
replay_fetched (some lines) now f =
    let (roster, frames) = read_lines lines f.roster in
    let g = record f { roster = roster } in
    if is_live g.source
    then g
    else (let loaded = push frames (reset Source.replay g) in
        bump now (record loaded {
          clock_mode = ClockMode.play;
          speed = normal_speed;
          vt = first_at loaded;
          anchor = record { wall = now; vt = first_at loaded };
        }))
