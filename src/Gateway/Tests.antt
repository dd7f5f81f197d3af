-- ===== src/Gateway/Tests.antt =====
-- Runs of web/gateway/server.ts on sample messages.
use market_sandbox.Prelude.{
  ◌≡◌, ◌+◌, ◌++◌, ◌-ℤ◌, refl, arith, none, some, List, [], ◌∷◌, length, pos, true,
}
use market_sandbox.Wire.{of_batch}
use market_sandbox.Roster.{announced}
use market_sandbox.Samples.{sample_batch, sample_order, sold_trades}
use market_sandbox.Wire.{WireBatch, Status, ask}
use market_sandbox.Normalizer.{normalize, offer_book, flush_book}
use market_sandbox.Normalizer.Raw.{RawBatch}
use market_sandbox.Normalizer.Resting.{attribute}
use market_sandbox.Feed
use market_sandbox.Feed.Socket.{read_lines}
use market_sandbox.Gateway.{
  Gateway, Recorder, initial, Event, metadata, data_came, timer, call_ended, resubscribed, run,
  handle, on_data, on_timer, write_line, history_max, on_connection, start_recording,
}
use market_sandbox.Gateway.Retries.{retries, one_if, run-retries}
use market_sandbox.Gateway.Live.{broadcasts, connected_page-frames}
use market_sandbox.Gateway.History.{take_last, batches_in, run-history}
use market_sandbox.Gateway.Recording.{frames_in, recording-read_lines}
use market_sandbox.Gateway.Greeting.{messages_to, read_all, IsShowing, greeting-IsShowing}

abbrev bare : RawBatch
bare = record {
  timestamp = some (pos 5);
  order = none;
  trace = none;
  trades = none;
  top_of_book = none;
  book = some (record { bids = none; asks = none });
}

abbrev events : List Event
events = metadata ∷ data_came bare (pos 9) ∷ timer (pos 40) ∷ call_ended ∷ resubscribed ∷ []

abbrev kept_batch : WireBatch
kept_batch =
    sample_batch (pos 30) (sample_order "m1" "mm" ask (pos 100) (pos 4) Status.filled (pos 4))
      sold_trades

abbrev running : Gateway
running = record initial { exchange_up = true; history = kept_batch ∷ [] }

run-history_example :
    (run events running).0.history
    ≡ take_last history_max (kept_batch ∷ batches_in (run events running).1)
run-history_example = run-history events running (omega arith)

recording-read_lines_example :
    let out = run events (start_recording "session.ndjson" running).0 in
    (r : Recorder) × (out.0.recorder ≡ some r)
    × (read_lines r.written [] ≡ (announced, frames_in out.1))
    × (r.count ≡ length (frames_in out.1))
recording-read_lines_example =
    recording-read_lines "session.ndjson" events running [] refl (tt, (tt, (tt, (tt, (tt, tt)))))

greeting-IsShowing_example :
    IsShowing
      (of_batch kept_batch ∷ [])
      (read_all (messages_to 7 (on_connection 7 running).1) (pos 3) Feed.initial)
greeting-IsShowing_example = greeting-IsShowing 7 running (pos 3) refl (omega arith)

run-retries_example :
    retries (run (metadata ∷ call_ended ∷ call_ended ∷ []) running).1 + 0
    ≡ one_if (run (metadata ∷ call_ended ∷ call_ended ∷ []) running).0.ended
run-retries_example =
    run-retries (metadata ∷ call_ended ∷ call_ended ∷ []) running (tt, (tt, (tt, tt)))

connected_page-frames_example :
    let joined = on_connection 7 running in
    let sent = (run (data_came bare (pos 9) ∷ timer (pos 40) ∷ []) joined.0).1 in
    (read_all (messages_to 7 joined.1 ++ broadcasts sent) (pos 3) Feed.initial).frames
    ≡ of_batch kept_batch ∷ frames_in sent
unfolding run handle on_connection on_data on_timer normalize offer_book flush_book write_line
    attribute ◌-ℤ◌
connected_page-frames_example =
    connected_page-frames 7 (data_came bare (pos 9) ∷ timer (pos 40) ∷ []) running (pos 3) refl
      (tt, (tt, tt)) (omega arith)
