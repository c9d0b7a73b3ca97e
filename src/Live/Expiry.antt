-- ===== src/Live/Expiry.antt =====
-- A stop entry that nothing triggers: `expire_stale_stop_entry`, at each candle of the live worker.
use daytradebot.Base.{ℕ, ◌+◌, Bool, true, false, not, ◌&&◌, Option, none, some, if◌then◌else◌}
use daytradebot.Decimal.{Decimal}
use daytradebot.Domain.Orders.{EntryOrderType, stop_entry_expired}
use daytradebot.TradeTracker.{is_open}
use daytradebot.Broker.{Result, ok, err}
use daytradebot.Live.State.{LiveBroker, LiveFillState, PlacedOrderInfo, is_empty}

-- The repository's update of an order's row to cancelled, where there is a repository; its failure is
-- only logged.
abbrev pub MarkCancelled : Type 0 → Type 0
MarkCancelled W = Option (ℕ → W → W)

abbrev pub mark_cancelled : {W : Type 0} → MarkCancelled W → Option ℕ → W → W
mark_cancelled none id w = w
mark_cancelled (some mark) none w = w
mark_cancelled (some mark) (some id) w = mark id w

module _ {D W : Type 0} ⦃d : Decimal D⦄ (b : LiveBroker W D) (mark : MarkCancelled W)
    (validity : ℕ) where
  -- What the answer to the cancellation makes of the state, in which the candle is counted.
  abbrev pub after_cancel :
      LiveFillState D → PlacedOrderInfo D → W × Result (Unit {0}) → W × (LiveFillState D × Bool)
  after_cancel s p (w, ok _) =
      (mark_cancelled mark p.order_db_id w, (record s { open_order = none }, true))
  after_cancel s p (w, err _) = (w, (record s { open_order = some p }, false))

  abbrev pub expire_waiting : LiveFillState D → PlacedOrderInfo D → W → W × (LiveFillState D × Bool)
  expire_waiting s p w =
      let p' : PlacedOrderInfo D = record p { candles_waited = p.candles_waited + 1 } in
      if stop_entry_expired p'.candles_waited validity && not (is_empty p.broker_order_id)
      then after_cancel s p' (b.cancel p.broker_order_id w)
      else (w, (record s { open_order = some p' }, false))

  abbrev pub expire_by_type :
      LiveFillState D → PlacedOrderInfo D → W → EntryOrderType → W × (LiveFillState D × Bool)
  expire_by_type s p w EntryOrderType.stop = expire_waiting s p w
  expire_by_type s p w EntryOrderType.limit = (w, (s, false))

  abbrev pub expire_order :
      LiveFillState D → Option (PlacedOrderInfo D) → W → W × (LiveFillState D × Bool)
  expire_order s none w = (w, (s, false))
  expire_order s (some p) w = expire_by_type s p w p.entry_order_type

  unfoldable pub expire_stale_stop_entry : LiveFillState D → W → W × (LiveFillState D × Bool)
  expire_stale_stop_entry s w =
      if is_open s.tracker then (w, (s, false)) else expire_order s s.open_order w
