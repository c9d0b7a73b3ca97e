-- ===== src/Broker/Orders.antt =====
-- `impl Broker for SimulatedBroker`: placing, cancelling and reading orders.
use daytradebot.Base.{
  ℕ, ◌+◌, String, Bool, true, false, ◌||◌, Option, none, some, List, [], ◌∷◌, if◌then◌else◌, lookup,
  insert, erase, string_key, HashMap,
}
use daytradebot.Decimal.{Decimal, ◌⊕◌, ◌⊗◌, ◌⊘◌}
use daytradebot.Domain.Signals.{long, short}
use daytradebot.Domain.Orders.{Order, OrderType, EntryOrderType, OrderStatus, is_filled}
use daytradebot.Domain.Trades.{Position, new_position}
use daytradebot.TradeTracker.{get_or, direction_of}
use daytradebot.Broker.State.{
  OrderId, order_id_key, PendingExit, SimulatedState, SimulatedBrokerConfig,
}
use daytradebot.Broker.Costs.{for_execution, entry_cash_flow, mark_to_market_equity}

pub data BrokerError : Type 0 where
  connection_failed order_rejected order_not_found timeout internal : BrokerError

pub data Result {ℓ} (A : Type ℓ) : Type ℓ where
  ok : A → Result A
  err : BrokerError → Result A

abbrev pub is_some {ℓ} : {A : Type ℓ} → Option A → Bool
is_some none = false
is_some (some _) = true

abbrev pub is_working : OrderStatus → Bool
is_working OrderStatus.submitted = true
is_working OrderStatus.accepted = true
is_working OrderStatus.partially_filled = true
is_working _ = false

module _ {D : Type 0} ⦃d : Decimal D⦄ where
  abbrev pub entry_price : SimulatedBrokerConfig D → SimulatedState D → Order D → D
  entry_price cfg st order =
      let base = get_or order.price (get_or (lookup order.symbol st.market_prices) (d.of_ℕ 100)) in
      let factor = d.unity ⊕ cfg.slippage_pct in
      elim (direction_of order.side) [ long ↦ base ⊗ factor | short ↦ base ⊘ factor ]

  -- The position, its exits if it has any, the cash and the filled order.
  unfoldable pub open_position :
      SimulatedBrokerConfig D
      → OrderId
      → Order D
      → D
      → D
      → Option (PendingExit D)
      → SimulatedState D
      → SimulatedState D × Result OrderId
  open_position cfg id order fill_price stop_price exits st =
      let direction = direction_of order.side in
      let commission = for_execution cfg.commission order.quantity fill_price in
      elim (new_position order.symbol (get_or order.signal_id 0) direction order.quantity fill_price
        stop_price st.now) [
          | none ↦ (st, err internal)
          | some p ↦
              let cash = st.cash ⊕ entry_cash_flow direction fill_price order.quantity commission in
              (
                record st {
                  positions = insert order.symbol p st.positions;
                  pending_exits = elim exits [
                    | none ↦ st.pending_exits
                    | some e ↦ insert order.symbol e st.pending_exits
                  ];
                  cash = cash;
                  equity = mark_to_market_equity cash direction fill_price order.quantity;
                  orders =
                      insert id
                        (record order {
                          status = OrderStatus.filled;
                          filled_quantity = order.quantity;
                          avg_fill_price = some fill_price;
                          filled_at = some st.now;
                        })
                        st.orders;
                },
                ok id,
              )
        ]

  -- A stop entry waits for its trigger.
  unfoldable pub await_entry :
      OrderId → Order D → PendingExit D → SimulatedState D → SimulatedState D × Result OrderId
  await_entry id order exit st = elim order.price [
    | none ↦ (st, err order_rejected)
    | some trigger_price ↦ (
      record st {
        pending_entries =
            insert order.symbol
              (record {
                trigger_price = trigger_price;
                direction = direction_of order.side;
                stop_price = exit.stop_price;
                target_price = exit.target_price;
                quantity = order.quantity;
                order_id = id;
                signal_id = get_or order.signal_id 0;
                candles_waiting = 0;
              })
              st.pending_entries;
        orders = insert id (record order { status = OrderStatus.accepted }) st.orders;
      },
      ok id,
    )
  ]

  unfoldable pub place_bracket :
      SimulatedBrokerConfig D
      → OrderId
      → Order D
      → SimulatedState D
      → SimulatedState D × Result OrderId
  place_bracket cfg id order st = elim order.stop_price [
    | none ↦ (st, err order_rejected)
    | some stop_price ↦ elim order.target_price [
      | none ↦ (st, err order_rejected)
      | some target_price ↦
          let exit : PendingExit D = record {
            stop_price = stop_price;
            target_price = target_price;
          } in
          elim order.entry_order_type [
            | EntryOrderType.stop ↦ await_entry id order exit st
            | EntryOrderType.limit ↦
                open_position cfg id order (entry_price cfg st order) stop_price (some exit) st
          ]
    ]
  ]

  unfoldable pub place_by_type :
      SimulatedBrokerConfig D
      → OrderId
      → Order D
      → SimulatedState D
      → OrderType
      → SimulatedState D × Result OrderId
  place_by_type cfg id order st OrderType.market =
      open_position cfg id order (entry_price cfg st order) (get_or order.stop_price d.nought) none
        st
  place_by_type cfg id order st OrderType.limit =
      open_position cfg id order (entry_price cfg st order) (get_or order.stop_price d.nought) none
        st
  place_by_type cfg id order st OrderType.bracket = place_bracket cfg id order st
  place_by_type cfg id order st _ = (st, err order_rejected)

  -- `place_order`; `nanos` is the clock's reading for the new id, which is spent also on an error.
  unfoldable pub place_order :
      SimulatedBrokerConfig D → ℕ → Order D → SimulatedState D → SimulatedState D × Result OrderId
  place_order cfg nanos order st =
      if is_some (lookup order.symbol st.positions)
        || is_some (lookup order.symbol st.pending_entries)
      then (st, err order_rejected)
      else (let id : OrderId = record { nanos = nanos; number = st.next_order_id } in
          let st' : SimulatedState D = record st { next_order_id = st.next_order_id + 1 } in
          let order' : Order D = record order {
            status = OrderStatus.submitted;
            submitted_at = some st.now;
          } in
          place_by_type cfg id order' st' order.order_type)

  -- `cancel_order`, at the instant `utc_now`.
  unfoldable pub cancel_order :
      OrderId → ℕ → SimulatedState D → SimulatedState D × Result (Unit {0})
  cancel_order id utc_now st = elim (lookup id st.orders) [
    | none ↦ (st, err order_not_found)
    | some order ↦ if is_filled order then (st, err order_rejected) else (
      record st {
        orders =
            insert id (record order { status = OrderStatus.cancelled; cancelled_at = some utc_now })
              st.orders;
        pending_entries = erase order.symbol st.pending_entries;
      },
      ok tt,
    )
  ]

  unfoldable pub pending_entry_order_id : String → SimulatedState D → Option OrderId
  pending_entry_order_id symbol st = elim (lookup symbol st.pending_entries) [
    | none ↦ none
    | some e ↦ some e.order_id
  ]

  unfoldable pub get_order_status : OrderId → SimulatedState D → Result OrderStatus
  get_order_status id st = elim (lookup id st.orders) [
    | none ↦ err order_not_found
    | some o ↦ ok o.status
  ]

  unfoldable pub get_open_orders : SimulatedState D → List (Order D)
  get_open_orders st = working st.orders
    where
      working : HashMap OrderId (Order D) → List (Order D)
      working [] = []
      working ((id, o) ∷ rest) = if is_working o.status then o ∷ working rest else working rest

  unfoldable pub get_position : String → SimulatedState D → Option (Position D)
  get_position symbol st = lookup symbol st.positions

  unfoldable pub clear_closed_trades : SimulatedState D → SimulatedState D
  clear_closed_trades st = record st { closed_trades = [] }
