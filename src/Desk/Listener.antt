-- ===== src/Desk/Listener.antt =====
-- packages/backend/signing-layer/src/eventListener.ts: from a BetAuthorized record to its order, and
-- the scan. What the chain, the registry, the funding and the CLOB answer for a record is `Answers`.
use polyshield.Common.{
  ℕ, Bool, true, Option, none, some, List, [], ◌∷◌, if◌then◌else◌, ◌==◌, is_some,
}
use polyshield.Attest.Store.{Signer, get_attestation}
use polyshield.Tracker.{is_order_tracked}
use polyshield.Signing.TokenBinding.{RegistryHit, BuyDecision, trade, reject, decide_buy_token}
use polyshield.Desk.{
  Desk, Intent, fak, gtc, gtd, upsert_tracked_market, get_limit_order, started_at, is_halted,
  OrderType,
}
use polyshield.Desk.Submit.{BetEvent, PostReply, fail, submit_fak_order, submit_limit_order}

-- BetAuthorizedRecord, less the new commitment, which nothing reads.
pub record BetRecord : Type 0 where
  pub nullifier : ℕ
  pub market_id : ℕ
  pub position_id : ℕ
  pub outcome_side : Option ℕ
  pub expected_shares : ℕ
  pub bet_amount : ℕ
  pub price : ℕ

-- `on_chain` is the market of betRecords, 0 where there is no record, and none where the read throws.
pub record Answers : Type 0 where
  pub on_chain : Option ℕ
  pub now : ℕ
  pub resolved : Option RegistryHit
  pub end_date : Option ℕ
  pub funded : Bool
  pub reply : PostReply
  pub fee : ℕ

abbrev pub order_event : BetRecord → ℕ → ℕ → BetEvent
order_event r token condition = record {
  nullifier = r.nullifier;
  market_id = condition;
  position_id = token;
  expected_shares = r.expected_shares;
  bet_amount = r.bet_amount;
  price = r.price;
}

module _ (domain_set : Bool) (sign : Signer) (mock : Bool) where
  abbrev pub route_typed : OrderType → BetEvent → Answers → Desk → Desk
  route_typed fak e a d = submit_fak_order domain_set sign mock a.now e a.funded a.reply d
  route_typed gtc e a d = submit_limit_order domain_set sign mock e a.funded a.reply a.fee d
  route_typed gtd e a d = submit_limit_order domain_set sign mock e a.funded a.reply a.fee d

  abbrev pub route : Option Intent → BetEvent → Answers → Desk → Desk
  route none e a d = submit_fak_order domain_set sign mock a.now e a.funded a.reply d
  route (some i) e a d = route_typed i.order_type e a d

  abbrev pub after_decision : BuyDecision → BetRecord → Answers → Desk → Desk
  after_decision (reject reason) r a d = fail domain_set sign mock r.nullifier d
  after_decision (trade token condition source) r a d =
      let d' = upsert_tracked_market r.market_id condition a.end_date d in
      route (get_limit_order r.nullifier d') (order_event r token condition) a d'

  unfoldable pub process_bet_event : BetRecord → Answers → Desk → Desk
  process_bet_event r a d =
      after_decision (decide_buy_token r.market_id r.position_id r.outcome_side a.resolved mock) r a
        d

  unfoldable pub set_in_flight : ℕ → ℕ → Desk → Desk
  set_in_flight n now d = record d { in_flight = (n, now) ∷ d.in_flight }

  abbrev pub on_record : Option ℕ → BetRecord → Answers → Desk → Desk
  on_record none r a d = d
  on_record (some market) r a d =
      if market == 0 then d else process_bet_event r a (set_in_flight r.nullifier a.now d)

  unfoldable pub is_handled : ℕ → Desk → Bool
  is_handled n d =
      if is_some (get_attestation n none d.tracker.store)
      then true
      else if is_some (started_at n d.in_flight)
      then true
      else is_order_tracked n d.tracker

  -- handleBetRecord
  unfoldable pub handle_bet_record : BetRecord → Answers → Desk → Desk
  handle_bet_record r a d = if is_handled r.nullifier d then d else on_record a.on_chain r a d

  -- The loop over the records of a window; nothing runs once the breaker has exited the process.
  unfoldable pub handle_all : List (BetRecord × Answers) → Desk → Desk
  handle_all [] d = d
  handle_all ((r, a) ∷ rs) d = handle_all rs (if is_halted d then d else handle_bet_record r a d)
