-- ===== src/Broker/Market.antt =====
-- What a candle does to the state: its waiting entry, the mark, and its stop and target.
use daytradebot.Base.{
  ◌+◌, String, Bool, true, false, not, ◌&&◌, Option, none, some, if◌then◌else◌, lookup, insert,
  erase, string_key,
}
use daytradebot.Decimal.{Decimal, ◌⊕◌, ◌⊖◌, ◌⊗◌, le, lt, max, min}
use daytradebot.Domain.Market.{Candle}
use daytradebot.Domain.Signals.{Direction, long, short}
use daytradebot.Domain.Orders.{OrderStatus, stop_entry_expired}
use daytradebot.Domain.Trades.{ExitReason, new_position}
use daytradebot.Broker.State.{
  order_id_key, PendingExit, PendingEntry, SimulatedState, SimulatedBrokerConfig,
}
use daytradebot.Broker.Costs.{for_execution, apply_slippage, entry_cash_flow, mark_to_market_equity}
use daytradebot.Broker.Prices.{amend, mark, book_exit}

module _ {D : Type 0} ⦃d : Decimal D⦄ where
  abbrev pub is_triggered : PendingEntry D → Candle D → Bool
  is_triggered e c = elim e.direction [
    | long ↦ le e.trigger_price c.high
    | short ↦ le c.low e.trigger_price
  ]

  -- Where the fill starts from, and how far the open has run past the trigger.
  abbrev pub fill_base : Direction → D → D → D
  fill_base long opening trigger = max opening trigger
  fill_base short opening trigger = min opening trigger

  abbrev pub overshoot : Direction → D → D → D
  overshoot long opening trigger = max (opening ⊖ trigger) d.nought
  overshoot short opening trigger = max (trigger ⊖ opening) d.nought

  abbrev pub is_overshot : SimulatedBrokerConfig D → PendingEntry D → Candle D → Bool
  is_overshot cfg e c =
      let stop_distance = d.abs (e.trigger_price ⊖ e.stop_price) in
      lt d.nought stop_distance
      && lt (cfg.entry_overshoot_tolerance ⊗ stop_distance)
          (overshoot e.direction c.«open» e.trigger_price)

  -- The entry fills: a position, its pending exits, the cash and the order.
  unfoldable pub fill_entry :
      SimulatedBrokerConfig D
      → String
      → PendingEntry D
      → Candle D
      → SimulatedState D
      → SimulatedState D
  fill_entry cfg symbol e c st =
      let fill_price =
        apply_slippage (fill_base e.direction c.«open» e.trigger_price) e.direction true
          cfg.slippage_pct in
      let commission = for_execution cfg.commission e.quantity fill_price in
      elim (new_position symbol e.signal_id e.direction e.quantity fill_price e.stop_price st.now) [
        | none ↦ st
        | some p ↦
            let cash = st.cash ⊕ entry_cash_flow e.direction fill_price e.quantity commission in
            record st {
              positions =
                  insert symbol (record p { target_price = some e.target_price }) st.positions;
              pending_exits =
                  insert symbol
                    (record { stop_price = e.stop_price; target_price = e.target_price })
                    st.pending_exits;
              cash = cash;
              equity = mark_to_market_equity cash e.direction fill_price e.quantity;
              orders =
                  amend e.order_id
                    (λ o. record o {
                      status = OrderStatus.filled;
                      filled_quantity = e.quantity;
                      avg_fill_price = some fill_price;
                      filled_at = some st.now;
                    })
                    st.orders;
            }
      ]

  -- A candle over a pending entry: it waits, expires, is called off, or fills.
  unfoldable pub work_entry :
      SimulatedBrokerConfig D
      → String
      → Candle D
      → PendingEntry D
      → SimulatedState D
      → SimulatedState D
  work_entry cfg symbol c e st =
      let triggered = is_triggered e c in
      let expired =
        not triggered && stop_entry_expired (e.candles_waiting + 1) cfg.entry_validity_candles in
      let waiting : PendingEntry D = record e { candles_waiting = e.candles_waiting + 1 } in
      let left : SimulatedState D = record st {
        pending_entries = erase symbol st.pending_entries;
      } in
      if expired
      then record left {
        orders = amend e.order_id (λ o. record o { status = OrderStatus.expired }) st.orders;
      }
      else if not triggered
      then record st { pending_entries = insert symbol waiting st.pending_entries }
      else if is_overshot cfg e c
      then record left {
        orders =
            amend e.order_id
              (λ o. record o { status = OrderStatus.cancelled; cancelled_at = some st.now })
              st.orders;
      }
      else fill_entry cfg symbol e c left

  -- The price and the reason of an exit within a candle, the stop first.
  unfoldable pub candle_hit :
      SimulatedBrokerConfig D → Direction → PendingExit D → Candle D → Option (D × ExitReason)
  candle_hit cfg long exit c =
      if le c.low exit.stop_price
      then some (
        apply_slippage (min c.«open» exit.stop_price) long false cfg.slippage_pct,
        ExitReason.stop,
      )
      else if le exit.target_price c.high
      then some (
        apply_slippage (max c.«open» exit.target_price) long false cfg.limit_fill_haircut_pct,
        ExitReason.target,
      )
      else none
  candle_hit cfg short exit c =
      if le exit.stop_price c.high
      then some (
        apply_slippage (max c.«open» exit.stop_price) short false cfg.slippage_pct,
        ExitReason.stop,
      )
      else if le c.low exit.target_price
      then some (
        apply_slippage (min c.«open» exit.target_price) short false cfg.limit_fill_haircut_pct,
        ExitReason.target,
      )
      else none

  unfoldable pub exit_at_candle :
      SimulatedBrokerConfig D → String → Candle D → SimulatedState D → SimulatedState D
  exit_at_candle cfg symbol c st = elim (lookup symbol st.pending_exits) [
    | none ↦ st
    | some exit ↦ elim (lookup symbol st.positions) [
      | none ↦ st
      | some p ↦ elim (candle_hit cfg p.direction exit c) [
        | none ↦ st
        | some (price, reason) ↦ book_exit cfg symbol p price reason st.now st
      ]
    ]
  ]

  unfoldable pub enter_at_candle :
      SimulatedBrokerConfig D → String → Candle D → SimulatedState D → SimulatedState D
  enter_at_candle cfg symbol c st = elim (lookup symbol st.pending_entries) [
    | none ↦ st
    | some e ↦ work_entry cfg symbol c e st
  ]

  abbrev pub tick : String → Candle D → SimulatedState D → SimulatedState D
  tick symbol c st = record st {
    market_prices = insert symbol c.close st.market_prices;
    now = c.timestamp;
  }

  unfoldable pub set_market_candle :
      SimulatedBrokerConfig D → String → Candle D → SimulatedState D → SimulatedState D
  set_market_candle cfg symbol c st =
      exit_at_candle cfg symbol c
        (mark symbol c.close (enter_at_candle cfg symbol c (tick symbol c st)))
