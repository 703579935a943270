-- ===== src/Desk/Runs.antt =====
-- Runs of the signing layer, packages/backend/signing-layer/src: any sequence of the records of the
-- listener (eventListener.ts), of requests to the routes (autoSettlement.ts), of what reaches the fill
-- tracker (wsFillTracker.ts), and of restarts of the process. Only a restart follows an exit.
use polyshield.Common.{ℕ, Bool, Option, List, [], ◌∷◌, if◌then◌else◌}
use polyshield.Attest.Store.{Signer}
use polyshield.Tracker.Steps.{Action as TrackerAction, step as tracker_step}
use polyshield.Desk.{Desk, Intent, OrderType, is_halted, restart}
use polyshield.Desk.Listener.{BetRecord, Answers, handle_bet_record}
use polyshield.Desk.Sell.{CloseRequest, SellAnswers}
use polyshield.Desk.Routes.{CancelAnswers, cancel_bet, close_request, limit_order}

pub data Event : Type 0 where
  bet : BetRecord → Answers → Event
  cancel : ℕ → ℕ → ℕ → CancelAnswers → Event
  close : Option OrderType → CloseRequest → SellAnswers → Event
  intent : Intent → Event
  tracker : TrackerAction → Event

pub data Move : Type 0 where
  handle : Event → Move
  start_again : Move

module _ (domain_set : Bool) (sign : Signer) (mock : Bool) where
  unfoldable pub handle_event : Event → Desk → Desk
  handle_event (bet r a) d = handle_bet_record domain_set sign mock r a d
  handle_event (cancel now now_sec n a) d = (cancel_bet domain_set sign mock now now_sec n a d).1
  handle_event (close type req a) d = (close_request domain_set sign mock type req a d).1
  handle_event (intent i) d = limit_order domain_set sign mock i d
  handle_event (tracker act) d = record d { tracker = tracker_step domain_set sign act d.tracker }

  unfoldable pub step : Move → Desk → Desk
  step start_again d = restart d
  step (handle e) d = if is_halted d then d else handle_event e d

  unfoldable pub run : List Move → Desk → Desk
  run [] d = d
  run (m ∷ ms) d = run ms (step m d)
