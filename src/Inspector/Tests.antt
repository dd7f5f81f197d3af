-- ===== src/Inspector/Tests.antt =====
-- Runs of web/src/components/Inspector.tsx on the sample session.
use market_sandbox.Prelude.{
  refl, ite, String, String_discrete, arith, int_laws, none, some, All, [], ◌∷◌, pos,
}
use market_sandbox.Normalizer.{initial, normalize}
use market_sandbox.Normalizer.Raw.{RawTrace, RawBatch, empty_order}
use market_sandbox.Wire.{WireBatch}
use market_sandbox.Scope.Spotlight
use market_sandbox.Scope.Spotlight.{run, follow}
use market_sandbox.Inspector.Row.{IsNotLast, spotlight_skips_last_row}
use market_sandbox.Gateway.Orders.{order_result}
use market_sandbox.Terminal.{notice}
use market_sandbox.Inspector.Words.{IsSame, is_rejected, reply_of, outcome, notice-IsSame}
use market_sandbox.Inspector.Waterfall.{IsOnTrack, whole, bars, bars-IsOnTrack}

abbrev raw_trace : RawTrace
raw_trace = record {
  seq = some (pos 1);
  t_rpc_in = some (pos 100);
  t_enqueue = some (pos 105);
  t_dequeue = some (pos 120);
  t_match_done = some (pos 121);
  t_promise_set = some (pos 130);
  t_publish = some (pos 142);
}

abbrev traced : RawBatch
traced = record {
  timestamp = some (pos 5);
  order = none;
  trace = some raw_trace;
  trades = none;
  top_of_book = none;
  book = none;
}

bars-IsOnTrack_example :
    All
      (IsOnTrack (whole (normalize initial traced (pos 7)).1.trace))
      (bars (normalize initial traced (pos 7)).1.trace)
bars-IsOnTrack_example =
    bars-IsOnTrack initial traced (pos 7)
      (omega arith, omega arith, omega arith, omega arith, omega arith)

abbrev batch : WireBatch
batch = (normalize initial traced (pos 7)).1

spotlight_skips_last_row_example :
    All IsNotLast
      (run (pos 100 ∷ pos 1500 ∷ pos 3000 ∷ []) (follow batch (pos 100) Spotlight.initial)).1
spotlight_skips_last_row_example =
    spotlight_skips_last_row batch (pos 100) (pos 100 ∷ pos 1500 ∷ pos 3000 ∷ []) (
      omega arith,
      omega int_laws,
      (omega arith, omega int_laws, (omega arith, omega int_laws, tt)),
    )

abbrev lower : String → String
lower s = ite (String_discrete s "FILLED") "filled" (
    ite (String_discrete s "PARTIAL") "partial"
      (ite (String_discrete s "QUEUED") "queued" (ite (String_discrete s "REJECTED") "rejected" s)))

abbrev rejected : RawBatch
rejected = record traced {
  order =
      some
        (record empty_order { status = some "REJECTED"; rejection_reason = some "no liquidity" });
}

notice-IsSame_example :
    IsSame
      (notice (
        order_result lower (
          reply_of (record empty_order {
            status = some "REJECTED";
            rejection_reason = some "no liquidity";
          }))))
      (outcome (normalize initial rejected (pos 7)).1)
unfolding String_discrete
notice-IsSame_example =
    notice-IsSame lower initial rejected (pos 7)
      (record { of_filled = refl; of_partial = refl; of_queued = refl; of_rejected = refl })
      is_rejected refl
