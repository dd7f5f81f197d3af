-- ===== src/Feed/Controls.antt =====
-- The playback controls of web/src/feed.ts: `seek`, `goLive`, `togglePlay`, `setSpeed` and `step`.
use market_sandbox.Prelude.{
  ◌+◌, List, [], ◌∷◌, ◌++◌, drop, ◌&&◌, if◌then◌else◌, ℤ, eq_ℤ, leb_ℤ, max_ℤ, min_ℤ, count_to,
}
use market_sandbox.Wire.{Frame, of_batch, of_book}
use market_sandbox.Feed.{
  Feed, ClockMode, normal_speed, is_live, bump, first_at, last_at, index_at, set_follow,
}

-- The change of mode in `seek`.
unfoldable pub seek_mode : ClockMode → ℤ → Feed → Feed
seek_mode ClockMode.follow now f = record f { clock_mode = ClockMode.pause }
seek_mode ClockMode.play now f = record f { anchor = record { wall = now; vt = f.vt } }
seek_mode ClockMode.pause now f = f

unfoldable pub seek : ℤ → ℤ → Feed → Feed
unfolding bump seek_mode
seek target now f =
    let vt = min_ℤ (max_ℤ target (first_at f)) (last_at f) in
    let moved = record f { vt = vt; cursor = count_to (index_at f vt) } in
    bump now (seek_mode f.clock_mode now moved)

-- `goLive`
unfoldable pub go_live : ℤ → Feed → Feed
unfolding bump seek set_follow
go_live now f =
    if is_live f.source
    then bump now (set_follow f)
    else (let restarted = record f { clock_mode = ClockMode.play; speed = normal_speed } in
        let sought = seek (first_at restarted) now restarted in
        bump now (record sought { anchor = record { wall = now; vt = sought.vt } }))

unfoldable pub toggle_mode : ClockMode → ℤ → Feed → Feed
unfolding set_follow
toggle_mode ClockMode.pause now f =
    if is_live f.source && leb_ℤ (last_at f) f.vt
    then set_follow f
    else record f { clock_mode = ClockMode.play; anchor = record { wall = now; vt = f.vt } }
toggle_mode _ now f = record f { clock_mode = ClockMode.pause }

-- `togglePlay`
unfoldable pub toggle_play : ℤ → Feed → Feed
unfolding toggle_mode bump
toggle_play now f = bump now (toggle_mode f.clock_mode now f)

unfoldable pub speed_mode : ClockMode → ℤ → Feed → Feed
unfolding bump
speed_mode ClockMode.follow now f =
    if eq_ℤ f.speed normal_speed
    then f
    else bump now
        (record f { clock_mode = ClockMode.play; anchor = record { wall = now; vt = f.vt } })
speed_mode ClockMode.play now f = bump now (record f { anchor = record { wall = now; vt = f.vt } })
speed_mode ClockMode.pause now f = bump now f

-- `setSpeed`; its early return leaves the version as it is.
unfoldable pub set_speed : ℤ → ℤ → Feed → Feed
unfolding speed_mode
set_speed s now f = speed_mode f.clock_mode now (record f { speed = s })

-- The loop of `step`, over the frames from the cursor: it ends at a batch.
unfoldable pub step_loop : List Frame → ℤ → Feed → Feed × List Frame
unfolding bump
step_loop [] now f = (bump now f, [])
step_loop (of_book b ∷ fs) now f = step_loop fs now (record f { cursor = f.cursor + 1; vt = b.at })
step_loop (of_batch b ∷ fs) now f = (
  bump now (record f { cursor = f.cursor + 1; vt = b.at; forced = f.forced ++ of_batch b ∷ [] }),
  of_batch b ∷ [],
)

unfoldable pub step : ℤ → Feed → Feed × List Frame
unfolding step_loop
step now f = step_loop (drop f.cursor f.frames) now (record f { clock_mode = ClockMode.pause })
