-- ===== src/Live/Sends.antt =====
-- What the sending of a closing order leaves at the broker: which orders are cancelled, and how
-- many closing orders can arrive.
use daytradebot.Base.{
  ◌≡◌, ◌≢◌, String, true, Option, none, some, List, [], ◌∷◌, string_key, refl, Bool-cases, inl, inr,
}
use daytradebot.Decimal.{Decimal}
use daytradebot.Domain.Orders.{Order, OrderSide, OrderType, new_order}
use daytradebot.Domain.Trades.{Position}
use daytradebot.Broker.{Result, ok, err, BrokerError}
use daytradebot.Live.State.{LiveBroker, OpenOrder, exit_side}
use daytradebot.Live.Closing.{
  closed, is_exit_of, any_exit, attempt, resend, send_closing, cancel_unless_kept, cancel_each,
  cancel_listed, cancel_protection_legs, close_position_at_market,
}

module _ {D W : Type 0} ⦃d : Decimal D⦄ (b : LiveBroker W D) where
  module _ (kept : String) (P : W → Type 0)
      (list_keeps : (w : W) → P w → P (b.list_open_orders w).0)
      (cancel_keeps : (id : String) (w : W) → kept ≢ id → P w → P (b.cancel id w).0) where
    cancel_unless_kept_keeps :
        (id : Option String) (w : W) → P w → P (cancel_unless_kept b (some kept) id w)
    cancel_unless_kept_keeps none w p = p
    cancel_unless_kept_keeps (some id) w p = elim (Bool-cases (string_key.same kept id)) [
      | inl e ↦ rw e p
      | inr e ↦ rw e (cancel_keeps id w (λ same. cc ((string_key.same_iff kept id).1 same)) p)
    ]

    cancel_each_keeps :
        (symbol : String) (side : OrderSide) (os : List (OpenOrder D)) (w : W)
        → P w
        → P (cancel_each b symbol side (some kept) os w)
    unfolding cancel_each
    cancel_each_keeps symbol side [] w p = p
    cancel_each_keeps symbol side (o ∷ os) w p = elim (Bool-cases (is_exit_of symbol side o)) [
      | inl e ↦ rw e (
          cancel_each_keeps symbol side os (cancel_unless_kept b (some kept) o.broker_order_id w)
            (cancel_unless_kept_keeps o.broker_order_id w p))
      | inr e ↦ rw e (cancel_each_keeps symbol side os w p)
    ]

    cancel_listed_keeps :
        (symbol : String) (side : OrderSide) (r : W × Result (List (OpenOrder D)))
        → P r.0
        → P (cancel_listed b symbol side (some kept) r)
    cancel_listed_keeps symbol side (w, ok orders) p = cancel_each_keeps symbol side orders w p
    cancel_listed_keeps symbol side (w, err _) p = p

    -- Cancelling the legs that protect a position never cancels the closing order that was just
    -- sent: what listing the orders and cancelling any other order keep is kept.
    pub cancel_protection_legs_keeps_closing_order :
        (symbol : String) (side : OrderSide) (w : W)
        → P w
        → P (cancel_protection_legs b symbol side (some kept) w)
    unfolding cancel_protection_legs
    cancel_protection_legs_keeps_closing_order symbol side w p =
        cancel_listed_keeps symbol side _ (list_keeps w p)

  -- When the first submission answers with an error and the listing that follows shows any order of
  -- the symbol on the exit side, the stop that protects the position among them, the closing ends as
  -- a success, and no other order is sent.
  pub close_position_at_market_mistakes_protection :
      (symbol : String) (position : Position D) (order : Order D) (e : BrokerError)
      (os : List (OpenOrder D)) (w w1 w2 : W)
      → new_order symbol (exit_side position.direction) OrderType.market position.quantity
        ≡ some order
      → b.submit order w ≡ (w1, err e)
      → b.list_open_orders w1 ≡ (w2, ok os)
      → any_exit symbol (exit_side position.direction) os ≡ true
      → close_position_at_market b symbol position w ≡ (w2, closed)
  unfolding close_position_at_market send_closing attempt resend
  close_position_at_market_mistakes_protection symbol position order e os w w1 w2 made sent' listed'
        shows =
      rw (made, sent', listed', shows) refl
