-- ===== src/Desk/Routes.antt =====
-- The routes of packages/backend/signing-layer/src/autoSettlement.ts that change the desk: cancel-bet,
-- close-request and limit-order, and the reply of attestation. `is_authorized` is what operatorAuth
-- decides; the bodies are given as the schemas parse them. A reply is its HTTP status or outcome; the
-- table close_requests, which nothing reads, is left out.
use polyshield.Common.{
  ℕ, Bool, true, false, Option, none, some, ◌||◌, if◌then◌else◌, ◌==◌, ltb, is_some,
}
use polyshield.Attest.Store.{
  Signer, Attestation, ReportType, filled, failed, partial, sold, MarketSubmission, get_attestation,
  get_market_submission,
}
use polyshield.Signing.MarketOrders.{OrderReply, Reconciled, reconcile_market_submission}
use polyshield.Tracker.{Tracker, is_order_tracked}
use polyshield.Tracker.Cancel.{Client, CancelReply, cancel_tracked_order}
use polyshield.Desk.{
  Desk, Intent, OrderType, gtc, gtd, fak, record_limit_order, is_actively_submitting,
}
use polyshield.Desk.Submit.{fail}
use polyshield.Desk.Sell.{
  CloseRequest, SellAnswers, submit_market_sell_order, submit_limit_sell_order,
}

pub data Outcome : Type 0 where
  already_finalized : Outcome
  cancelled : CancelReply → Outcome
  reconciled : Reconciled → Outcome
  in_progress : Outcome
  attested_failed : Outcome

-- What the CLOB answers to a cancel, twice, and to a reconcile, and what betRecords holds.
pub record CancelAnswers : Type 0 where
  pub client : Option Client
  pub later : Option Client
  pub order : Option OrderReply
  pub committed : Option (ℕ × ℕ)

module _ (domain_set : Bool) (sign : Signer) (mock : Bool) where
  abbrev pub with_tracker : Desk → CancelReply × Tracker → Outcome × Desk
  with_tracker d (reply, t) = (cancelled reply, record d { tracker = t })

  abbrev pub cancel_submission :
      ℕ → ℕ → CancelAnswers → Option MarketSubmission → Desk → Outcome × Desk
  cancel_submission now n a none d = (attested_failed, fail domain_set sign mock n d)
  cancel_submission now n a (some sub) d =
      let (reply, store) =
        reconcile_market_submission domain_set sign n now sub a.order a.committed d.tracker.store in
      (reconciled reply, record d { tracker = record d.tracker { store = store } })

  -- The handler of POST /cancel-bet at the time `now`, of which reconcileMarketSubmission takes the
  -- seconds.
  unfoldable pub cancel_bet : ℕ → ℕ → ℕ → CancelAnswers → Desk → Outcome × Desk
  cancel_bet now now_sec n a d =
      if is_some (get_attestation n none d.tracker.store)
      then (already_finalized, d)
      else if is_order_tracked n d.tracker
      then with_tracker d (cancel_tracked_order domain_set sign n a.client a.later d.tracker)
      else if is_actively_submitting now n d
      then (in_progress, d)
      else cancel_submission now_sec n a (get_market_submission n d.submissions) d

  abbrev pub submit_close : OrderType → CloseRequest → SellAnswers → Desk → Desk
  submit_close fak req a d = submit_market_sell_order domain_set sign mock req a d
  submit_close gtc req a d = submit_limit_sell_order domain_set sign mock req a d
  submit_close gtd req a d = submit_limit_sell_order domain_set sign mock req a d

  abbrev pub or_fak : Option OrderType → OrderType
  or_fak none = fak
  or_fak (some type) = type

  -- POST /close-request, up to the end of the submission that it starts: true is the status 200, and
  -- false the 400 of shares or a price out of range, which no negative number reaches here.
  unfoldable pub close_request : Option OrderType → CloseRequest → SellAnswers → Desk → Bool × Desk
  close_request type req a d =
      if req.sold_shares == 0 || req.limit_price == 0 || ltb 1_000_000 req.limit_price
      then (false, d)
      else (true, submit_close (or_fak type) req a d)

  -- POST /limit-order; the expiration is 0 where the body has none that is positive.
  unfoldable pub limit_order : Intent → Desk → Desk
  limit_order i d = record_limit_order i d

-- GET /attestation/:nullifier
pub data AttestationReply : Type 0 where
  ok : Attestation → AttestationReply
  not_found bad_request : AttestationReply

-- ReportType from its number, none where the text is not an integer of 1 to 4.
unfoldable pub report_type_of : ℕ → Option ReportType
report_type_of n =
    if n == 1
    then some filled
    else if n == 2
    then some failed
    else if n == 3
    then some partial
    else if n == 4
    then some sold
    else none

abbrev pub found : Option Attestation → AttestationReply
found none = not_found
found (some att) = ok att

abbrev pub attestation_typed : ℕ → Option ReportType → Desk → AttestationReply
attestation_typed n none d = bad_request
attestation_typed n (some rt) d = found (get_attestation n (some rt) d.tracker.store)

-- The query has no reportType, or the number it reads as.
unfoldable pub get_attestation_route : ℕ → Option ℕ → Desk → AttestationReply
get_attestation_route n none d = found (get_attestation n none d.tracker.store)
get_attestation_route n (some rt) d = attestation_typed n (report_type_of rt) d
