-- ===== src/Broker/Prices.antt =====
-- What a price does to the state: marks, exits, and closing a position at the market.
use daytradebot.Base.{
  ℕ, String, Bool, true, false, Option, none, some, [], ◌∷◌, ◌++◌, if◌then◌else◌, lookup, insert,
  erase, string_key, HashMap,
}
use daytradebot.Decimal.{Decimal, ◌⊕◌, ◌⊖◌, ◌⊗◌, le}
use daytradebot.Domain.Orders.{Order}
use daytradebot.Domain.Trades.{ExitReason, Position}
use daytradebot.Broker.State.{
  OrderId, order_id_key, PendingExit, SimulatedState, SimulatedBrokerConfig,
}
use daytradebot.Broker.Costs.{
  for_execution, apply_slippage, exit_cash_flow, multiplier, close_position_to_trade,
}

-- `if let Some(order) = state.orders.get_mut(id)`
abbrev pub amend :
    {D : Type 0}
    → OrderId
    → (Order D → Order D)
    → HashMap OrderId (Order D)
    → HashMap OrderId (Order D)
amend id f orders = elim (lookup id orders) [ none ↦ orders | some o ↦ insert id (f o) orders ]

module _ {D : Type 0} ⦃d : Decimal D⦄ where
  -- The new unrealised result of a position at a price, and the equity.
  unfoldable pub mark : String → D → SimulatedState D → SimulatedState D
  mark symbol price st = elim (lookup symbol st.positions) [
    | none ↦ st
    | some p ↦ record st {
      positions =
          insert symbol
            (record p {
              unrealized_pnl = (price ⊖ p.avg_entry_price) ⊗ p.quantity ⊗ multiplier p.direction;
            })
            st.positions;
      equity = st.cash ⊕ price ⊗ p.quantity ⊗ multiplier p.direction;
    }
  ]

  -- The position leaves at the price: its trade, its cash, and no pending exit.
  unfoldable pub book_exit :
      SimulatedBrokerConfig D
      → String
      → Position D
      → D
      → ExitReason
      → ℕ
      → SimulatedState D
      → SimulatedState D
  book_exit cfg symbol p exit_price reason exit_time st =
      let trade = close_position_to_trade p exit_price reason cfg exit_time in
      let cash =
        st.cash
        ⊕ exit_cash_flow p.direction exit_price p.quantity
            (for_execution cfg.commission p.quantity exit_price) in
      record st {
        positions = erase symbol st.positions;
        pending_exits = erase symbol st.pending_exits;
        cash = cash;
        daily_pnl = st.daily_pnl ⊕ trade.net_pnl;
        equity = cash;
        closed_trades = st.closed_trades ++ (trade ∷ []);
      }

  -- The exit of a pending pair at a single price: `set_market_price` has no case for shorts.
  abbrev pub price_hit : PendingExit D → D → Option ExitReason
  price_hit exit price =
      if le price exit.stop_price
      then some ExitReason.stop
      else if le exit.target_price price
      then some ExitReason.target
      else none

  unfoldable pub exit_at_price :
      SimulatedBrokerConfig D → String → D → ℕ → SimulatedState D → SimulatedState D
  exit_at_price cfg symbol price utc_now st = elim (lookup symbol st.pending_exits) [
    | none ↦ st
    | some exit ↦ elim (price_hit exit price) [
      | none ↦ st
      | some reason ↦ elim (lookup symbol st.positions) [
        | none ↦ st
        | some p ↦ book_exit cfg symbol p price reason utc_now st
      ]
    ]
  ]

  unfoldable pub set_market_price :
      SimulatedBrokerConfig D → String → D → ℕ → SimulatedState D → SimulatedState D
  set_market_price cfg symbol price utc_now st =
      exit_at_price cfg symbol price utc_now
        (mark symbol price (record st { market_prices = insert symbol price st.market_prices }))

  -- The answer says whether there was a position.
  unfoldable pub close_position_at_market :
      SimulatedBrokerConfig D → String → D → ExitReason → SimulatedState D → SimulatedState D × Bool
  close_position_at_market cfg symbol price reason st =
      let st' : SimulatedState D = record st {
        market_prices = insert symbol price st.market_prices;
      } in
      elim (lookup symbol st.positions) [
        | none ↦ (st', false)
        | some p ↦ (
          book_exit cfg symbol p (apply_slippage price p.direction false cfg.slippage_pct) reason
              st.now st',
          true,
        )
      ]
