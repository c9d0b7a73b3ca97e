-- ===== src/Live/Events.antt =====
-- The events of orders that the live worker drains: `drain_order_events` and `finalize_live_trade`.
-- The clock is read where a closed trade has no times of its own.
use daytradebot.Base.{
  ℕ, String, Bool, true, false, Option, none, some, List, [], ◌∷◌, ltb, if◌then◌else◌, string_key,
}
use daytradebot.Decimal.{Decimal, ◌⊘◌, lt}
use daytradebot.Domain.Orders.{Fill, OrderEvent, fill_event, status_update}
use daytradebot.Domain.Trades.{Trade, ExitReason}
use daytradebot.TradeTracker.{
  FillTracker, TrackerFill, ClosedTrade, on_fill, classify_exit_reason, get_or,
}
use daytradebot.Risk.{RiskState}
use daytradebot.Execution.{sync_risk_state}
use daytradebot.Live.State.{
  LiveFillState, PlacedOrderInfo, Notify, persistence_failure, trade_closed, trade_message,
}

pub data SavedFill : Type 0 where
  inserted duplicate save_failed : SavedFill

-- The repositories that hold fills, trades and orders, on the world outside the process. A fill that
-- the database already has is answered as a duplicate; `save_trade` takes the mark of a forced exit
-- and answers whether it succeeded; a failure of `mark_filled` is only logged.
pub record LiveRepos (W D : Type 0) : Type 0 where
  pub save_fill : Fill D → W → W × SavedFill
  pub save_trade : Trade D → Bool → W → W × Bool
  pub mark_filled : ℕ → D → D → W → W

-- The world, the worker's fills and its risk of the day.
pub record LiveRun (W D : Type 0) : Type 0 where
  pub world : W
  pub fills : LiveFillState D
  pub risk : RiskState D

module _ {D : Type 0} ⦃d : Decimal D⦄ where
  unfoldable pub live_exit_reason : LiveFillState D → PlacedOrderInfo D → ClosedTrade D → ExitReason
  live_exit_reason s ctx t =
      if s.time_exit_triggered
      then ExitReason.time
      else if s.flatten_triggered
      then ExitReason.end_of_day
      else classify_exit_reason t.direction t.exit_price ctx.stop_price ctx.target_price

  unfoldable pub live_trade : String → LiveFillState D → PlacedOrderInfo D → ClosedTrade D → Trade D
  live_trade symbol s ctx t = record {
    symbol = symbol;
    signal_id = get_or ctx.signal_db_id 0;
    direction = t.direction;
    entry_price = t.entry_price;
    exit_price = t.exit_price;
    quantity = t.quantity;
    entry_time = t.entry_time;
    exit_time = t.exit_time;
    stop_price = ctx.stop_price;
    target_price = ctx.target_price;
    gross_pnl = t.gross_pnl;
    commissions = t.commissions;
    fees = d.nought;
    net_pnl = t.net_pnl;
    risk_amount = ctx.risk_amount;
    result_in_r = if lt d.nought ctx.risk_amount then t.net_pnl ⊘ ctx.risk_amount else d.nought;
    exit_reason = live_exit_reason s ctx t;
  }

  abbrev pub tracker_fill : Fill D → TrackerFill D
  tracker_fill f = record {
    side = f.side;
    price = f.fill_price;
    quantity = f.quantity;
    commission = f.commission;
    timestamp = f.timestamp;
  }

  -- The tracked order and its row, where the fill is of the symbol and belongs to an order in the
  -- database; every other event is passed over.
  abbrev pub with_row : Fill D → PlacedOrderInfo D → Option ℕ → Option (PlacedOrderInfo D × Fill D)
  with_row f ctx none = none
  with_row f ctx (some id) = some (ctx, record f { order_id = id })

  abbrev pub tracked_by : Fill D → Option (PlacedOrderInfo D) → Option (PlacedOrderInfo D × Fill D)
  tracked_by f none = none
  tracked_by f (some ctx) = with_row f ctx ctx.order_db_id

  abbrev pub accepted :
      String → OrderEvent D → Option (PlacedOrderInfo D) → Option (PlacedOrderInfo D × Fill D)
  accepted symbol (status_update id status) order = none
  accepted symbol (fill_event id f) order =
      if string_key.same f.symbol symbol then tracked_by f order else none

module _ {D W : Type 0} ⦃d : Decimal D⦄ (repos : Option (LiveRepos W D)) (notify : Notify W)
    (symbol : String) (now : ℕ) where
  abbrev pub after_save : LiveRun W D → W × Bool → LiveRun W D
  after_save r (w, true) = record r { world = w }
  after_save r (w, false) = record r {
    world = notify persistence_failure w;
    fills = record r.fills { persistence_degraded = true };
  }

  abbrev pub mark_row : LiveRepos W D → Option ℕ → ClosedTrade D → LiveRun W D → LiveRun W D
  mark_row rs none t r = r
  mark_row rs (some id) t r = record r {
    world = rs.mark_filled id t.quantity t.entry_price r.world;
  }

  -- The trade is saved and the order's row is marked, where there is a database.
  abbrev pub persist_trade :
      Option (LiveRepos W D)
      → PlacedOrderInfo D
      → ClosedTrade D
      → Trade D
      → Bool
      → LiveRun W D
      → LiveRun W D
  persist_trade none ctx t trade forced r = r
  persist_trade (some rs) ctx t trade forced r =
      mark_row rs ctx.order_db_id t (after_save r (rs.save_trade trade forced r.world))

  unfoldable pub finalize_live_trade : PlacedOrderInfo D → ClosedTrade D → LiveRun W D → LiveRun W D
  finalize_live_trade ctx t r =
      let trade = live_trade symbol r.fills ctx t in
      let r' : LiveRun W D = persist_trade repos ctx t trade r.fills.flatten_triggered (record r {
        fills = record r.fills { time_exit_triggered = false; flatten_triggered = false };
      }) in
      let risk = sync_risk_state r'.risk (t.net_pnl ∷ []) in
      let w = notify trade_message r'.world in
      record {
        world = if ltb 0 risk.consecutive_losses then notify trade_closed w else w;
        fills = record r'.fills { open_order = none };
        risk = risk;
      }

  abbrev pub finalize_closed :
      PlacedOrderInfo D → LiveRun W D → FillTracker D × Option (ClosedTrade D) → LiveRun W D
  finalize_closed ctx r (tracker, none) = record r { fills = record r.fills { tracker = tracker } }
  finalize_closed ctx r (tracker, some t) =
      finalize_live_trade ctx t (record r { fills = record r.fills { tracker = tracker } })

  abbrev pub after_fill : PlacedOrderInfo D → Fill D → LiveRun W D → W × SavedFill → LiveRun W D
  after_fill ctx f r (w, inserted) =
      finalize_closed ctx (record r { world = w }) (on_fill r.fills.tracker (tracker_fill f) now)
  after_fill ctx f r (w, duplicate) = record r { world = w }
  after_fill ctx f r (w, save_failed) = record r {
    world = notify persistence_failure w;
    fills = record r.fills { persistence_degraded = true };
  }

  abbrev pub take_fill :
      Option (LiveRepos W D) → Option (PlacedOrderInfo D × Fill D) → LiveRun W D → LiveRun W D
  take_fill rs none r = r
  take_fill none (some (ctx, f)) r = r
  take_fill (some rs) (some (ctx, f)) r = after_fill ctx f r (rs.save_fill f r.world)

  abbrev pub drain_event : LiveRun W D → OrderEvent D → LiveRun W D
  drain_event r e = take_fill repos (accepted symbol e r.fills.open_order) r

  unfoldable pub drain_order_events : LiveRun W D → List (OrderEvent D) → LiveRun W D
  drain_order_events r [] = r
  drain_order_events r (e ∷ es) = drain_order_events (drain_event r e) es
