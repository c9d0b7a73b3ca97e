-- ===== src/Broker/Cash.antt =====
-- What a position costs and returns in cash, against the net result of its trade.
use daytradebot.Base.{ℕ, ◌≡◌}
use daytradebot.Decimal.{Decimal, ◌⊕◌, ◌⊖◌, ◌⊗◌, IsExact}
use daytradebot.Domain.Signals.{Direction, long, short}
use daytradebot.Domain.Trades.{ExitReason, Position}
use daytradebot.Broker.State.{SimulatedBrokerConfig}
use daytradebot.Broker.Costs.{
  for_execution, entry_cash_flow, exit_cash_flow, close_position_to_trade, multiplier,
}

module _ {D : Type 0} ⦃d : Decimal D⦄ (exact : IsExact D) where
  open exact use {add_assoc, add_comm, sub_eq, neg_add, neg_neg, sub_mul, mul_one, mul_neg_one}

  interchange : (w x y z : D) → (w ⊕ x) ⊕ (y ⊕ z) ≡ (w ⊕ y) ⊕ (x ⊕ z)
  interchange w x y z =
      cc (
        add_assoc w x (y ⊕ z),
        add_assoc x y z,
        add_comm x y,
        add_assoc y x z,
        add_assoc w y (x ⊕ z),
      )

  -- The two flows with the commissions `c` and `c'` beside the gross result.
  flows-net :
      (dir : Direction) (entry exit quantity c c' : D)
      → entry_cash_flow dir entry quantity c ⊕ exit_cash_flow dir exit quantity c'
        ≡ (exit ⊖ entry) ⊗ quantity ⊗ multiplier dir ⊖ (c ⊕ c')
  unfolding entry_cash_flow exit_cash_flow
  flows-net long entry exit quantity c c' =
      let a = entry ⊗ quantity in
      let b = exit ⊗ quantity in
      cc (
        sub_eq (d.neg a) c,
        sub_eq b c',
        interchange (d.neg a) (d.neg c) b (d.neg c'),
        add_comm (d.neg a) b,
        sub_eq b a,
        sub_mul exit entry quantity,
        mul_one ((exit ⊖ entry) ⊗ quantity),
        neg_add c c',
        sub_eq (b ⊖ a) (c ⊕ c'),
      )
  flows-net short entry exit quantity c c' =
      let a = entry ⊗ quantity in
      let b = exit ⊗ quantity in
      cc (
        sub_eq a c,
        sub_eq (d.neg b) c',
        interchange a (d.neg c) (d.neg b) (d.neg c'),
        add_comm a (d.neg b),
        sub_eq b a,
        neg_add b (d.neg a),
        neg_neg a,
        sub_mul exit entry quantity,
        mul_neg_one ((exit ⊖ entry) ⊗ quantity),
        neg_add c c',
        sub_eq (d.neg (b ⊖ a)) (c ⊕ c'),
      )

  -- Where the arithmetic is exact, what a position has taken out of the cash on entry and brought back
  -- on exit, commissions included, is the net result of its trade, for a long and for a short.
  pub cash_flows-net_pnl :
      (cfg : SimulatedBrokerConfig D) (p : Position D) (exit_price : D) (reason : ExitReason)
      (t : ℕ)
      → entry_cash_flow p.direction p.avg_entry_price p.quantity
            (for_execution cfg.commission p.quantity p.avg_entry_price)
          ⊕ exit_cash_flow p.direction exit_price p.quantity
              (for_execution cfg.commission p.quantity exit_price)
        ≡ (close_position_to_trade p exit_price reason cfg t).net_pnl
  unfolding close_position_to_trade
  cash_flows-net_pnl cfg p exit_price reason t =
      flows-net p.direction p.avg_entry_price exit_price p.quantity
        (for_execution cfg.commission p.quantity p.avg_entry_price)
        (for_execution cfg.commission p.quantity exit_price)
