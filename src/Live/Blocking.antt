-- ===== src/Live/Blocking.antt =====
-- When the live worker sends no entry: something at the broker in the symbol, or a database that is
-- not to be relied on.
use daytradebot.Base.{
  ℕ, ◌≡◌, ◌≢◌, ◌⊎◌, inl, inr, refl, String, Bool, true, false, Option, none, some, List, arith,
  Bool-cases,
}
use daytradebot.Decimal.{Decimal}
use daytradebot.Domain.Market.{Candle}
use daytradebot.Domain.Trades.{Position}
use daytradebot.Broker.{Result, ok, err}
use daytradebot.Live.State.{
  OpenOrder, LiveAlert, order_missing, untracked_exposure, circuit_breaker,
}
use daytradebot.Live.Protection.{
  LiveExposure, no_exposure, position, open_orders, find_exposure, listed_exposure, exposure_at,
}
use daytradebot.Live.Expiry.{MarkCancelled}
use daytradebot.Live.Entry.{BlockReason, LiveWorker}
use daytradebot.Live.Tick.{
  LiveLoop, Flow, end_tick, count_failure, flow_of, missing_order, blocked_by_exposure,
  enter_unless_degraded, reconciled, reconcile,
}

module _ {D W : Type 0} ⦃d : Decimal D⦄ (x : LiveWorker W D) (P : W → Type 0)
    (find_keeps : (k : String) (w : W) → P w → P (x.broker.find_position k w).0)
    (list_keeps : (w : W) → P w → P (x.broker.list_open_orders w).0)
    (notify_keeps : (a : LiveAlert) (w : W) → P w → P (x.notify a w)) where
  listed_exposure_keeps :
      (symbol : String) (r : W × Result (List (OpenOrder D)))
      → P r.0
      → P (listed_exposure x.broker symbol r).0
  listed_exposure_keeps symbol (w, ok os) p = p
  listed_exposure_keeps symbol (w, err _) p = p

  exposure_at_keeps :
      (symbol : String) (r : W × Result (Option (Position D)))
      → P r.0
      → P (exposure_at x.broker symbol r).0
  exposure_at_keeps symbol (w, ok (some _)) p = p
  exposure_at_keeps symbol (w, ok none) p =
      listed_exposure_keeps symbol (x.broker.list_open_orders w) (list_keeps w p)
  exposure_at_keeps symbol (w, err _) p = p

  count_failure_keeps : (l : LiveLoop W D) → P l.world → P (count_failure x.notify l).0.world
  unfolding count_failure
  count_failure_keeps l p = ground (arith, p, notify_keeps circuit_breaker l.world p)

  flow_of-world : (f : Flow) (r : LiveLoop W D × Bool) → P r.0.world → P (flow_of f r).0.world
  flow_of-world f (l, true) p = p
  flow_of-world f (l, false) p = p

  module _ (mark : MarkCancelled W) (validity : ℕ) (key : BlockReason → String) where
    missing_order_keeps :
        (l : LiveLoop W D) → P l.world → P (missing_order x mark validity key l).world
    unfolding missing_order
    missing_order_keeps l p = ground (arith, p, notify_keeps order_missing l.world p)

    blocked_by_exposure_keeps :
        (l : LiveLoop W D) → P l.world → P (blocked_by_exposure x mark validity key l).world
    unfolding blocked_by_exposure
    blocked_by_exposure_keeps l p = ground (arith, p, notify_keeps untracked_exposure l.world p)

    enter_unless_degraded_keeps :
        (reference : Option D) (candles : List (Candle D)) (l : LiveLoop W D)
        → l.fills.persistence_degraded ≡ true
        → P l.world
        → P (enter_unless_degraded x mark validity key reference candles l).world
    unfolding enter_unless_degraded
    enter_unless_degraded_keeps reference candles l degraded p =
        elim (Bool-cases l.fills.persistence_degraded) [ inl e ↦ simp e p | inr e ↦ cc ]

    reconciled_keeps :
        (reference : Option D) (candles : List (Candle D)) (c : Candle D) (l : LiveLoop W D)
        (r : W × Result (LiveExposure D))
        → P r.0
        → (r.1 ≢ ok no_exposure) ⊎ (l.fills.persistence_degraded ≡ true)
        → P (reconciled x mark validity key reference candles c l r).0.world
    unfolding missing_order
    reconciled_keeps reference candles c l (w, ok no_exposure) p (inl busy) = absurd (busy refl)
    reconciled_keeps reference candles c l (w, ok no_exposure) p (inr degraded) =
        enter_unless_degraded_keeps reference candles
          (missing_order x mark validity key (record l { world = w })) degraded
          (missing_order_keeps (record l { world = w }) p)
    reconciled_keeps reference candles c l (w, ok (position _ _)) p h =
        blocked_by_exposure_keeps (record l { world = w }) p
    reconciled_keeps reference candles c l (w, ok (open_orders _)) p h =
        blocked_by_exposure_keeps (record l { world = w }) p
    reconciled_keeps reference candles c l (w, err _) p h =
        flow_of-world end_tick (count_failure x.notify (record l { world = w }))
          (count_failure_keeps (record l { world = w }) p)

    -- While the broker holds a position or an order in the symbol, or does not answer, and while the
    -- database is not to be relied on, the worker sends no entry: what reading the position, listing
    -- the orders and the alerts keep is kept.
    pub reconcile_sends_nothing :
        (reference : Option D) (candles : List (Candle D)) (c : Candle D) (l : LiveLoop W D)
        → ((find_exposure x.broker x.symbol l.world).1 ≢ ok no_exposure)
          ⊎ (l.fills.persistence_degraded ≡ true)
        → P l.world
        → P (reconcile x mark validity key reference candles c l).0.world
    unfolding reconcile find_exposure
    reconcile_sends_nothing reference candles c l h p =
        reconciled_keeps reference candles c l (find_exposure x.broker x.symbol l.world)
          (exposure_at_keeps x.symbol (x.broker.find_position x.symbol l.world)
            (find_keeps x.symbol l.world p))
          h
