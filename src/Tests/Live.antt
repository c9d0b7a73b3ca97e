-- ===== src/Tests/Live.antt =====
-- The live worker on concrete inputs: closing, expiry, protection and the settling of a bar.
use daytradebot.Base.{
  ℕ, zero, suc, ◌+◌, ◌≡◌, ◌≢◌, refl, true, String, false, none, some, List, [], ◌∷◌, length, lookup,
  string_key, All, arith,
}
use daytradebot.Decimal.Integers.{ℤ, pos, integers}
use daytradebot.Domain.Market.{Candle}
use daytradebot.Domain.Signals.{long}
use daytradebot.Domain.Orders.{Order, OrderType, OrderStatus, EntryOrderType, sell, day, new_order}
use daytradebot.Domain.Trades.{Position, PositionStatus}
use daytradebot.TradeTracker.{new_tracker, is_open}
use daytradebot.TimeExit.{new_tracker as new_time_exit}
use daytradebot.Broker.{ok, err, timeout, SimulatedState, PendingEntry, new_broker, is_some}
use daytradebot.Live.State.{LiveBroker, LiveFillState, OpenOrder, PlacedOrderInfo}
use daytradebot.Live.Closing.{
  any_exit, close_position_at_market, send_closing, resend, attempt, closed, failed,
}
use daytradebot.Live.Sends.{close_position_at_market_mistakes_protection}
use daytradebot.Live.Trace.{recorded}
use daytradebot.Live.Recorded.{forget}
use daytradebot.Live.Looks.{IsLookedAfter, close_position_at_market-IsLookedAfter}
use daytradebot.Live.Parity.{expire_over, market_over, expire_stale_stop_entry_parity}
use daytradebot.Live.Protection.{
  find_protection, ensure_stop_protection, ensure_stop_protection_replaces,
}
use daytradebot.Live.Settling.{waits, poll_until, poll_until_settles}
use daytradebot.Tests.{bar, broker_config}

abbrev pub held : Position ℤ
held = record {
  symbol = "X";
  signal_id = 1;
  direction = long;
  quantity = pos 10;
  avg_entry_price = pos 102;
  entry_time = 0;
  stop_price = pos 100;
  target_price = none;
  unrealized_pnl = pos 0;
  status = PositionStatus.opened;
}

abbrev exit_order : OrderType → Order ℤ
exit_order kind = record {
  signal_id = none;
  symbol = "X";
  side = sell;
  order_type = kind;
  entry_order_type = EntryOrderType.stop;
  status = OrderStatus.pending;
  time_in_force = day;
  quantity = pos 10;
  filled_quantity = pos 0;
  price = none;
  stop_price = none;
  target_price = none;
  avg_fill_price = none;
  submitted_at = none;
  filled_at = none;
  cancelled_at = none;
}

abbrev listed_as : String → OrderType → OpenOrder ℤ
listed_as id kind = record { broker_order_id = some id; order = exit_order kind }

-- A broker that takes every order but whose answers are lost; its world is the count of the orders.
abbrev arrived_so_far : ℕ → List (OpenOrder ℤ)
arrived_so_far zero = []
arrived_so_far (suc n) = listed_as "1" OrderType.market ∷ []

abbrev answerless : LiveBroker ℕ ℤ
answerless = record {
  account_equity = λ w. (w, err timeout);
  list_positions = λ w. (w, err timeout);
  find_position = λ k w. (w, ok (some held));
  list_open_orders = λ w. (w, ok (arrived_so_far w));
  submit = λ o w. (w + 1, err timeout);
  cancel = λ id w. (w, ok tt);
}

close_position_at_market-IsLookedAfter_example :
    let r = close_position_at_market (recorded answerless) "X" held (0, []) in
    IsLookedAfter answerless "X" sell true r
    × (forget r ≡ close_position_at_market answerless "X" held 0)
unfolding new_order
close_position_at_market-IsLookedAfter_example =
    close_position_at_market-IsLookedAfter answerless "X" held 0

-- The same broker, where an order that arrives is filled at once and listed no more: all three
-- attempts arrive.
abbrev filling : LiveBroker ℕ ℤ
filling = record answerless { list_open_orders = λ w. (w, ok []) }

sends_again_after_fill : close_position_at_market filling "X" held 0 ≡ (3, failed)
unfolding any_exit new_order close_position_at_market send_closing resend attempt
sends_again_after_fill = refl

-- A broker that shows the stop of the position and refuses the closing order.
abbrev refusing : LiveBroker ℕ ℤ
refusing = record answerless { list_open_orders = λ w. (w, ok (listed_as "7" OrderType.stop ∷ [])) }

close_position_at_market_mistakes_protection_example :
    close_position_at_market refusing "X" held 0 ≡ (1, closed)
unfolding any_exit new_order
close_position_at_market_mistakes_protection_example =
    close_position_at_market_mistakes_protection refusing "X" held (exit_order OrderType.market)
      timeout (listed_as "7" OrderType.stop ∷ []) 0 1 1 refl refl refl refl

-- A stop entry that waits at 110 under candles that stay below, with a validity of two.
abbrev waiting_entry : PendingEntry ℤ
waiting_entry = record {
  trigger_price = pos 110;
  direction = long;
  stop_price = pos 100;
  target_price = pos 120;
  quantity = pos 10;
  order_id = record { nanos = 7; number = 0 };
  signal_id = 1;
  candles_waiting = 0;
}

abbrev waiting_state : SimulatedState ℤ
waiting_state = record (new_broker broker_config 0) { pending_entries = ("X", waiting_entry) ∷ [] }

abbrev tracked_entry : PlacedOrderInfo ℤ
tracked_entry = record {
  order_db_id = some 1;
  signal_db_id = some 1;
  broker_order_id = "5";
  entry_order_type = EntryOrderType.stop;
  candles_waited = 0;
  stop_price = pos 100;
  target_price = some (pos 120);
  risk_amount = pos 100;
}

abbrev pub tracking : LiveFillState ℤ
tracking = record {
  tracker = new_tracker;
  open_order = some tracked_entry;
  time_exit = new_time_exit (record { enabled = false; min_r = pos 1; candles = 3 });
  time_exit_triggered = false;
  flatten_triggered = false;
  unprotected_streak = 0;
  persistence_degraded = false;
  untracked_exposure_streak = 0;
  missing_order_streak = 0;
}

abbrev quiet_candles : List (Candle ℤ)
quiet_candles = bar 0 100 105 99 101 ∷ bar 300 101 106 99 102 ∷ []

expire_stale_stop_entry_parity_example :
    is_some (expire_over answerless none 2 (length quiet_candles) tracking 0).1.open_order
    ≡ is_some
        (lookup "X" (market_over broker_config "X" quiet_candles waiting_state).pending_entries)
unfolding lookup is_open
expire_stale_stop_entry_parity_example =
    expire_stale_stop_entry_parity answerless none broker_config "X" quiet_candles waiting_state
      waiting_entry tracking tracked_entry 0 refl (refl, (refl, tt)) refl (λ id v. refl) refl refl
      refl refl

-- A broker without any order, which takes the stop.
abbrev bare : LiveBroker ℕ ℤ
bare = record answerless { list_open_orders = λ w. (w, ok []); submit = λ o w. (w + 10, ok "9") }

ensure_stop_protection_replaces_example :
    (let (w', s') =
        ensure_stop_protection bare (λ a w. w + 1) "X" held (some (pos 100)) tracking 0 in
      ensure_stop_protection bare (λ a w. w + 1) "X" held (some (pos 100)) s' w')
    ≡ (13, record tracking { unprotected_streak = 0 })
unfolding find_protection new_order
ensure_stop_protection_replaces_example =
    ensure_stop_protection_replaces bare (λ a w. w + 1) "X" held (pos 100) tracking
      (exit_order OrderType.stop) [] [] "9" 0 0 1 12 refl refl refl refl refl refl refl refl

-- A feed that shows another close of the same bar at every poll.
abbrev versions : ℕ → List (Candle ℤ)
versions zero = []
versions (suc n) = bar 0 100 105 99 n ∷ versions n

versions-of_bar : (n : ℕ) → All (λ c. c.timestamp ≡ 0) (versions n)
versions-of_bar zero = tt
versions-of_bar (suc n) = (refl, versions-of_bar n)

length-versions : (n : ℕ) → length (versions n) ≡ n
length-versions zero = refl
length-versions (suc n) = omega (arith, length-versions n)

poll_until_settles_example :
    (poll_until (record { pending_bar = none; degenerate_streak = 0 }) (versions 32)).1 ≢ waits
poll_until_settles_example =
    poll_until_settles 0 (record { pending_bar = none; degenerate_streak = 0 }) (versions 32)
      (versions-of_bar 32) (omega (arith, length-versions 32))
