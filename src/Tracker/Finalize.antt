-- ===== src/Tracker/Finalize.antt =====
-- What finalize of wsFillTracker.ts attests, and two paths that lead to it.
use polyshield.Common.{◌≡◌, ℕ, Bool, true, false, Option, none, some, arith, refl}
use polyshield.Attest.Store.{Signer, get_attestation, failed}
use polyshield.Attest.SingleWrite.{failed_recorded}
use polyshield.Attest.Terminal.{attest_terminal, terminal_report, buy, buy_report}
use polyshield.Signing.MarketOrders.{live}
use polyshield.Tracker.{
  Tracker, TrackedOrder, mem, track_order, finalize, get_tracked_order, already_attested,
}
use polyshield.Tracker.Cancel.{Client, finalized, cancel_tracked_order}

-- While a bet is in the set of the finalized bets, an order registered for it is dropped, whatever its
-- side: after a BUY was finalized in this process, a resting SELL that closes the same bet is neither
-- kept in the table nor tracked.
pub finalized_bet_drops_close :
    (d : Bool) (sign : Signer) (bought close : TrackedOrder) (shares spent : ℕ) (t : Tracker)
    → t.has_wallet ≡ true
    → close.nullifier ≡ bought.nullifier
    → track_order close (finalize d sign bought shares spent t)
      ≡ finalize d sign bought shares spent t
unfolding track_order finalize
finalized_bet_drops_close d sign bought close shares spent t w same = ground arith

tracked-active :
    (n : ℕ) (t : Tracker) (o : TrackedOrder)
    → get_tracked_order n t ≡ some o
    → mem n t.finalized ≡ false
unfolding get_tracked_order
tracked-active n t o h = ground arith

-- A user's cancel of a tracked BUY without an attestation, where the CLOB still reports the order as
-- live and its trades show no fill, answers that it is finalized and attests the bet as FAILED.
pub live_cancel_attests_failed :
    (sign : Signer) (o : TrackedOrder) (later : Option Client) (t : Tracker) (w : ℕ)
    → get_tracked_order o.nullifier t ≡ some o
    → o.side ≡ buy
    → t.has_wallet ≡ true
    → get_attestation o.nullifier none t.store ≡ none
    → sign o.nullifier failed 0 0 ≡ some w
    → let c : Client = record { order = live; trades = some (0, 0) } in
      let (reply, t') = cancel_tracked_order true sign o.nullifier (some c) later t in
      (reply ≡ finalized)
      × (get_attestation o.nullifier none t'.store
          ≡ some (record {
            nullifier = o.nullifier;
            report_type = failed;
            amount_a = 0;
            amount_b = 0;
            signature = w;
          }))
unfolding cancel_tracked_order already_attested finalize attest_terminal terminal_report buy_report
live_cancel_attests_failed sign o later t w found side wallet free ok =
    let active = tracked-active o.nullifier t o found in
    simp (found, side, wallet, free, active)
      (refl, failed_recorded sign o.nullifier t.store w free ok)
