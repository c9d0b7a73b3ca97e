-- ===== src/Tests/Broker.antt =====
-- The simulated broker on concrete inputs: a bracket whose stop entry fills on the next candle.
use daytradebot.Base.{◌≡◌, string_key, insert, erase, ◌<◌, ◌+◌, lookup, refl, none, some}
use daytradebot.Decimal.{◌⊕◌, ◌≼◌, ◌⊗◌}
use daytradebot.Decimal.Integers.{ℤ, pos, abs_ℤ, integers, ℤ-IsOrdered, ℤ-IsRounded, ℤ-IsExact}
use daytradebot.Domain.Signals.{long}
use daytradebot.Domain.Orders.{
  Order, OrderType, buy, EntryOrderType, OrderStatus, day, stop_entry_expired,
}
use daytradebot.Domain.Trades.{ExitReason, Position, PositionStatus, new_position}
use daytradebot.Domain.Market.{Candle}
use daytradebot.Broker.{
  entry_cash_flow, exit_cash_flow, close_position_to_trade, charge, SimulatedState, OrderId,
  PendingEntry, per_share, per_trade, await_entry, place_by_type, place_bracket, enter_at_candle,
  work_entry, fill_entry, exit_at_candle, mark, candle_hit, new_broker, place_order,
  set_market_candle, for_execution, apply_slippage,
}
use daytradebot.Broker.Fits.{IsExclusive}
use daytradebot.Broker.Placing.{place_order-IsExclusive}
use daytradebot.Broker.Exclusion.{set_market_candle-IsExclusive}
use daytradebot.Broker.Fees.{for_execution-bounds}
use daytradebot.Broker.Cash.{cash_flows-net_pnl}
use daytradebot.Broker.Entries.{IsNoBetter, set_market_candle_waits, set_market_candle-IsNoBetter}
use daytradebot.Tests.{ten, bar, broker_config}

abbrev pub bracket : Order ℤ
bracket = record {
  signal_id = none;
  symbol = "X";
  side = buy;
  order_type = OrderType.bracket;
  entry_order_type = EntryOrderType.stop;
  status = OrderStatus.pending;
  time_in_force = day;
  quantity = pos 40;
  filled_quantity = pos 0;
  price = some (pos 102);
  stop_price = some (pos 100);
  target_price = some (pos 108);
  avg_fill_price = none;
  submitted_at = none;
  filled_at = none;
  cancelled_at = none;
}

abbrev pub fresh : SimulatedState ℤ
fresh = new_broker broker_config 0

pub fresh-IsExclusive : IsExclusive fresh
unfolding new_broker lookup
fresh-IsExclusive s = refl

abbrev waiting : SimulatedState ℤ
waiting = (place_order broker_config 7 bracket fresh).0

waiting-IsExclusive : IsExclusive waiting
waiting-IsExclusive = place_order-IsExclusive broker_config 7 bracket fresh fresh-IsExclusive

abbrev entered : SimulatedState ℤ
entered = set_market_candle broker_config "X" (bar (ten + 600) 102 104 101 103) waiting

place_order-IsExclusive_example : IsExclusive (place_order broker_config 7 bracket fresh).0
place_order-IsExclusive_example =
    place_order-IsExclusive broker_config 7 bracket fresh fresh-IsExclusive

set_market_candle-IsExclusive_example :
    IsExclusive (set_market_candle broker_config "X" (bar (ten + 600) 102 104 101 103) waiting)
set_market_candle-IsExclusive_example =
    set_market_candle-IsExclusive broker_config "X" (bar (ten + 600) 102 104 101 103) waiting
      waiting-IsExclusive

abbrev first_id : OrderId
first_id = record { nanos = 7; number = 0 }

-- A floor of twenty above the cap, one per cent of the value being counted as ten.
for_execution-bounds_example :
    (pos 0 ≼ for_execution (per_share (pos 1) (pos 20) (pos 1)) (pos 2) (pos 5))
    × (for_execution (per_share (pos 1) (pos 20) (pos 1)) (pos 2) (pos 5)
        ≼ abs_ℤ (pos 5) ⊗ abs_ℤ (pos 2) ⊗ pos 1)
for_execution-bounds_example =
    for_execution-bounds ℤ-IsOrdered (pos 1) (pos 20) (pos 1) (pos 2) (pos 5) refl refl

-- The entry that waits, and the same after a candle that stays under its trigger.
abbrev waiting_entry : PendingEntry ℤ
waiting_entry = record {
  trigger_price = pos 102;
  direction = long;
  stop_price = pos 100;
  target_price = pos 108;
  quantity = pos 40;
  order_id = first_id;
  signal_id = 0;
  candles_waiting = 0;
}

still_waiting :
    lookup "X"
      (set_market_candle broker_config "X"
        (bar (ten + 600) 101 101 100 101)
        waiting).pending_entries
    ≡ some (record waiting_entry { candles_waiting = 1 })
unfolding place_order place_by_type place_bracket await_entry new_broker lookup insert erase
    set_market_candle enter_at_candle work_entry stop_entry_expired exit_at_candle mark
still_waiting = refl

set_market_candle_waits_example : 1 < 2
set_market_candle_waits_example =
    set_market_candle_waits broker_config "X" (bar (ten + 600) 101 101 100 101) waiting
      still_waiting

waits_at_first : lookup "X" waiting.pending_entries ≡ some waiting_entry
unfolding place_order place_by_type place_bracket await_entry new_broker lookup insert erase
waits_at_first = refl

free_at_first : lookup "X" waiting.positions ≡ none
unfolding place_order place_by_type place_bracket await_entry new_broker lookup insert erase
free_at_first = refl

-- The long that the candle opens: its open of 103 is past the trigger.
abbrev opened_long : Position ℤ
opened_long = record {
  symbol = "X";
  signal_id = 0;
  direction = long;
  quantity = pos 40;
  avg_entry_price = pos 103;
  entry_time = ten + 600;
  stop_price = pos 100;
  target_price = some (pos 108);
  unrealized_pnl = pos 0;
  status = PositionStatus.opened;
}

abbrev gap_up : Candle ℤ
gap_up = bar (ten + 600) 103 104 101 103

is_opened :
    lookup "X" (set_market_candle broker_config "X" gap_up waiting).positions ≡ some opened_long
unfolding place_order place_by_type place_bracket await_entry new_broker lookup insert erase
    set_market_candle enter_at_candle work_entry fill_entry stop_entry_expired exit_at_candle mark
    candle_hit apply_slippage new_position
is_opened = refl

set_market_candle-IsNoBetter_example : IsNoBetter broker_config "X" gap_up long (pos 103) (pos 102)
set_market_candle-IsNoBetter_example =
    set_market_candle-IsNoBetter broker_config "X" gap_up ℤ-IsOrdered ℤ-IsRounded waiting_entry
      waiting refl refl refl waits_at_first free_at_first is_opened

cash_flows-net_pnl_example :
    entry_cash_flow long (pos 103) (pos 40) (for_execution (per_trade (pos 1)) (pos 40) (pos 103))
      ⊕ exit_cash_flow long
          (pos 108)
          (pos 40)
          (for_execution (per_trade (pos 1)) (pos 40) (pos 108))
    ≡ (close_position_to_trade opened_long
        (pos 108)
        ExitReason.target
        broker_config
        (ten + 900)).net_pnl
cash_flows-net_pnl_example =
    cash_flows-net_pnl ℤ-IsExact broker_config opened_long (pos 108) ExitReason.target (ten + 900)

-- Forty shares, five dollars each, less two commissions.
two_hundred :
    (close_position_to_trade opened_long
      (pos 108)
      ExitReason.target
      broker_config
      (ten + 900)).net_pnl
    ≡ pos 198
unfolding close_position_to_trade for_execution charge
two_hundred = refl
