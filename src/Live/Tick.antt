-- ===== src/Live/Tick.antt =====
-- What the loop of `run_live` does with a bar that has settled: the waiting entry, the position and its
-- stop, the reconciliation with the broker, and the entry.
use daytradebot.Base.{
  ℕ, ◌+◌, String, Bool, true, false, ◌||◌, Option, none, some, List, [], ◌∷◌, ltb, ◌==◌,
  if◌then◌else◌, string_key,
}
use daytradebot.Decimal.{Decimal}
use daytradebot.Domain.Market.{Candle}
use daytradebot.Domain.Trades.{Position}
use daytradebot.TimeExit.{TimeExitTracker, ensure_tracking, on_candle_close, reset}
use daytradebot.TradeTracker.{is_open}
use daytradebot.Risk.{RiskState}
use daytradebot.Broker.{Result, ok, err}
use daytradebot.Live.State.{
  LiveFillState, PlacedOrderInfo, Notify, tracking_nothing, pending_entry_at_broker, order_missing,
  untracked_exposure, trading_halted, circuit_breaker, persistence_failure,
}
use daytradebot.Live.Closing.{Closing, closed, failed, close_position_at_market}
use daytradebot.Live.Expiry.{MarkCancelled, expire_stale_stop_entry}
use daytradebot.Live.Protection.{
  LiveExposure, no_exposure, position, open_orders, find_exposure, ensure_stop_protection,
}
use daytradebot.Live.Entry.{BlockReason, ExecOutcome, LiveWorker, analyze_and_execute}

abbrev pub live_max_consecutive_failures : ℕ
live_max_consecutive_failures = 10

abbrev pub untracked_exposure_alert_streak : ℕ
untracked_exposure_alert_streak = 2

abbrev pub missing_order_alert_streak : ℕ
missing_order_alert_streak = 2

-- What the loop does after a bar: the next bar, the end of this tick, or the end of the worker.
pub data Flow : Type 0 where
  next_bar end_tick stop_worker : Flow

pub record LiveLoop (W D : Type 0) : Type 0 where
  pub world : W
  pub fills : LiveFillState D
  pub risk : RiskState D
  pub last_processed : Option ℕ
  pub consecutive_failures : ℕ
  pub blocked_alerted : List String

unfoldable pub contains : List String → String → Bool
contains [] k = false
contains (j ∷ js) k = string_key.same j k || contains js k

module _ {W D : Type 0} where
  -- A failure is counted, and the circuit breaker ends the worker at its limit.
  unfoldable pub count_failure : Notify W → LiveLoop W D → LiveLoop W D × Bool
  count_failure notify l =
      let n = l.consecutive_failures + 1 in
      let l' : LiveLoop W D = record l { consecutive_failures = n } in
      if ltb n live_max_consecutive_failures
      then (l', false)
      else (record l' { world = notify circuit_breaker l'.world }, true)

  abbrev pub flow_of : Flow → LiveLoop W D × Bool → LiveLoop W D × Flow
  flow_of f (l, true) = (l, stop_worker)
  flow_of f (l, false) = (l, f)

  abbrev pub processed : Candle D → LiveLoop W D → LiveLoop W D
  processed c l = record l { last_processed = some c.timestamp }

module _ {D W : Type 0} ⦃d : Decimal D⦄ (x : LiveWorker W D) (mark : MarkCancelled W) (validity : ℕ)
    (key : BlockReason → String) where
  -- The clock of the exit by time, which runs while a position is tracked.
  abbrev pub armed : Position D → LiveFillState D → TimeExitTracker D
  armed p s = elim s.open_order [
    | none ↦ s.time_exit
    | some o ↦ ensure_tracking s.time_exit p.avg_entry_price o.stop_price p.direction
  ]

  abbrev pub tracked_stop : LiveFillState D → Option D
  tracked_stop s = elim s.open_order [ none ↦ none | some o ↦ some o.stop_price ]

  -- The position is closed by time, or its stop is watched.
  abbrev pub watch : Position D → LiveLoop W D → LiveLoop W D
  watch p l =
      let (w, s) =
        ensure_stop_protection x.broker x.notify x.symbol p (tracked_stop l.fills) l.fills
          l.world in
      record l { world = w; fills = s }

  abbrev pub watch_unless_stopped : Position D → LiveLoop W D × Bool → LiveLoop W D × Bool
  watch_unless_stopped p (l, true) = (l, true)
  watch_unless_stopped p (l, false) = (watch p l, false)

  abbrev pub after_time_exit : Position D → LiveLoop W D → W × Closing → LiveLoop W D × Bool
  after_time_exit p l (w, closed) = (
    record l {
      world = w;
      fills = record l.fills { time_exit_triggered = true; time_exit = reset l.fills.time_exit };
    },
    false,
  )
  after_time_exit p l (w, failed) =
      watch_unless_stopped p (count_failure x.notify (record l { world = w }))

  unfoldable pub hold_position : Candle D → Position D → LiveLoop W D → LiveLoop W D × Bool
  hold_position c p l =
      if is_open l.fills.tracker
      then (let (t, leaves) = on_candle_close (armed p l.fills) c.close in
          let l' : LiveLoop W D = record l { fills = record l.fills { time_exit = t } } in
          if leaves
          then after_time_exit p l' (close_position_at_market x.broker x.symbol p l'.world)
          else (watch p l', false))
      else (
        watch p (record l { fills = record l.fills { time_exit = reset l.fills.time_exit } }),
        false,
      )

  abbrev pub position_found :
      Candle D → LiveLoop W D → W × Result (Option (Position D)) → LiveLoop W D × Bool
  position_found c l (w, ok (some p)) = hold_position c p (record l { world = w })
  position_found c l (w, ok none) = (
    record l {
      world = w;
      fills = record l.fills { time_exit = reset l.fills.time_exit; unprotected_streak = 0 };
    },
    false,
  )
  position_found c l (w, err _) = count_failure x.notify (record l { world = w })

  -- Nothing is at the broker in the symbol: a tracked entry that should be there is missed.
  unfoldable pub missing_order : LiveLoop W D → LiveLoop W D
  missing_order l =
      let n = if pending_entry_at_broker l.fills then l.fills.missing_order_streak + 1 else 0 in
      record l {
        fills = record l.fills { untracked_exposure_streak = 0; missing_order_streak = n };
        world = if n == missing_order_alert_streak then x.notify order_missing l.world else l.world;
      }

  -- Something is: an exposure that is not tracked is told of at its second detection in a row.
  unfoldable pub blocked_by_exposure : LiveLoop W D → LiveLoop W D
  blocked_by_exposure l =
      let n = if tracking_nothing l.fills then l.fills.untracked_exposure_streak + 1 else 0 in
      record l {
        fills = record l.fills { untracked_exposure_streak = n };
        world =
            if n == untracked_exposure_alert_streak
            then x.notify untracked_exposure l.world
            else l.world;
      }

  -- A reason to stop trading is told of once a day.
  abbrev pub tell_blocked : Option BlockReason → LiveLoop W D → LiveLoop W D
  tell_blocked none l = l
  tell_blocked (some reason) l = if contains l.blocked_alerted (key reason) then l else record l {
    blocked_alerted = key reason ∷ l.blocked_alerted;
    world = x.notify trading_halted l.world;
  }

  abbrev pub is_none : Option ℕ → Bool
  is_none none = true
  is_none (some _) = false

  -- An order that was sent counts for the day and is tracked; without its row, entries are suspended.
  abbrev pub track_placed : Option (PlacedOrderInfo D) → LiveLoop W D → LiveLoop W D
  track_placed none l = l
  track_placed (some o) l =
      let unsaved = is_none o.order_db_id in
      record l {
        risk = record l.risk { daily_trades = l.risk.daily_trades + 1 };
        fills = record l.fills {
          open_order = some o;
          persistence_degraded = unsaved || l.fills.persistence_degraded;
        };
        world = if unsaved then x.notify persistence_failure l.world else l.world;
      }

  abbrev pub after_entry : LiveLoop W D → W × Result (ExecOutcome D) → LiveLoop W D
  after_entry l (w, ok out) =
      track_placed out.placed (tell_blocked out.blocked (record l { world = w }))
  after_entry l (w, err _) = record l { world = w }

  -- No entry while the database is not to be relied on.
  unfoldable pub enter_unless_degraded : Option D → List (Candle D) → LiveLoop W D → LiveLoop W D
  enter_unless_degraded reference candles l =
      if l.fills.persistence_degraded
      then l
      else after_entry l (analyze_and_execute x reference l.risk candles l.world)

  abbrev pub reconciled :
      Option D
      → List (Candle D)
      → Candle D
      → LiveLoop W D
      → W × Result (LiveExposure D)
      → LiveLoop W D × Flow
  reconciled reference candles c l (w, ok no_exposure) = (
    processed c (enter_unless_degraded reference candles (missing_order (record l { world = w }))),
    next_bar,
  )
  reconciled reference candles c l (w, ok (position quantity direction)) =
      (processed c (blocked_by_exposure (record l { world = w })), end_tick)
  reconciled reference candles c l (w, ok (open_orders ids)) =
      (processed c (blocked_by_exposure (record l { world = w })), end_tick)
  reconciled reference candles c l (w, err _) =
      flow_of end_tick (count_failure x.notify (record l { world = w }))

  unfoldable pub reconcile :
      Option D → List (Candle D) → Candle D → LiveLoop W D → LiveLoop W D × Flow
  reconcile reference candles c l =
      reconciled reference candles c l (find_exposure x.broker x.symbol l.world)

  abbrev pub reconcile_unless_stopped :
      Option D → List (Candle D) → Candle D → LiveLoop W D × Bool → LiveLoop W D × Flow
  reconcile_unless_stopped reference candles c (l, true) = (l, stop_worker)
  reconcile_unless_stopped reference candles c (l, false) = reconcile reference candles c l

  abbrev pub after_expiry :
      Option D → List (Candle D) → Candle D → LiveLoop W D → Bool → LiveLoop W D × Flow
  after_expiry reference candles c l true = (processed c l, next_bar)
  after_expiry reference candles c l false =
      reconcile_unless_stopped reference candles c
        (position_found c l (x.broker.find_position x.symbol l.world))

  -- One settled bar; `candles` are the bars up to it.
  unfoldable pub process_settled :
      Option D → List (Candle D) → Candle D → LiveLoop W D → LiveLoop W D × Flow
  process_settled reference candles c l =
      let (w, (s, expired)) = expire_stale_stop_entry x.broker mark validity l.fills l.world in
      after_expiry reference candles c (record l { world = w; fills = s }) expired
