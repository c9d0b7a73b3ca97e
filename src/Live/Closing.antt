-- ===== src/Live/Closing.antt =====
-- Leaving a position at the market: `close_position_at_market` and `cancel_protection_legs`.
use daytradebot.Base.{
  ℕ, ◌-◌, ◌≡◌, String, Bool, true, false, ◌&&◌, ◌||◌, Option, none, some, List, [], ◌∷◌, string_key,
  zero, suc, if◌then◌else◌,
}
use daytradebot.Decimal.{Decimal}
use daytradebot.Domain.Orders.{Order, OrderSide, OrderType, buy, sell, new_order}
use daytradebot.Domain.Trades.{Position}
use daytradebot.Broker.{Result, ok, err}
use daytradebot.Live.State.{LiveBroker, OpenOrder, exit_side}

abbrev close_attempts : ℕ
close_attempts = 3

abbrev pub same_side : OrderSide → OrderSide → Bool
same_side buy buy = true
same_side sell sell = true
same_side _ _ = false

-- How the sending of the closing order ended. `already_there` returns early as a success.
pub data Sending : Type 0 where
  sent : String → Sending
  already_there uncertain invalid_order not_sent : Sending

-- What the list of open orders says before the order is sent again.
pub data Resend : Type 0 where
  free arrived unknown : Resend

pub data Closing : Type 0 where
  closed failed : Closing

module _ {D : Type 0} where
  abbrev pub is_exit_of : String → OrderSide → OpenOrder D → Bool
  is_exit_of symbol side o = string_key.same o.order.symbol symbol && same_side o.order.side side

  unfoldable pub any_exit : String → OrderSide → List (OpenOrder D) → Bool
  any_exit symbol side [] = false
  any_exit symbol side (o ∷ os) = is_exit_of symbol side o || any_exit symbol side os

-- Each step goes on by the answer of the call before it.
module _ {W : Type 0} where
  abbrev pub answered : (W → W × Sending) → W × Result String → W × Sending
  answered again (w, ok id) = (w, sent id)
  answered again (w, err _) = again w

  abbrev pub allowed : (W → W × Sending) → W × Resend → W × Sending
  allowed again (w, free) = again w
  allowed again (w, arrived) = (w, already_there)
  allowed again (w, unknown) = (w, uncertain)

module _ {D W : Type 0} where
  abbrev pub after_listing : String → OrderSide → W × Result (List (OpenOrder D)) → W × Resend
  after_listing symbol side (w, ok orders) =
      (w, if any_exit symbol side orders then arrived else free)
  after_listing symbol side (w, err _) = (w, unknown)

module _ {D W : Type 0} ⦃d : Decimal D⦄ (b : LiveBroker W D) where
  -- One sending, and what follows when it fails.
  abbrev pub submit_order : (W → W × Sending) → Option (Order D) → W → W × Sending
  submit_order again none w = (w, invalid_order)
  submit_order again (some order) w = answered again (b.submit order w)

  unfoldable pub attempt : String → OrderSide → D → (W → W × Sending) → W → W × Sending
  attempt symbol side quantity again w =
      submit_order again (new_order symbol side OrderType.market quantity) w

  -- The attempts after the first, each behind a look at the open orders.
  unfoldable pub resend : String → OrderSide → D → ℕ → W → W × Sending
  resend symbol side quantity zero w = (w, not_sent)
  resend symbol side quantity (suc n) w =
      allowed (attempt symbol side quantity (resend symbol side quantity n))
        (after_listing symbol side (b.list_open_orders w))

  unfoldable pub send_closing : String → OrderSide → D → W → W × Sending
  send_closing symbol side quantity =
      attempt symbol side quantity (resend symbol side quantity (close_attempts - 1))

  abbrev pub is_kept : Option String → String → Bool
  is_kept none id = false
  is_kept (some kept) id = string_key.same kept id

  abbrev pub cancel_unless_kept : Option String → Option String → W → W
  cancel_unless_kept kept none w = w
  cancel_unless_kept kept (some id) w = if is_kept kept id then w else (b.cancel id w).0

  unfoldable pub cancel_each : String → OrderSide → Option String → List (OpenOrder D) → W → W
  cancel_each symbol side kept [] w = w
  cancel_each symbol side kept (o ∷ os) w =
      cancel_each symbol side kept os
        (if is_exit_of symbol side o then cancel_unless_kept kept o.broker_order_id w else w)

  abbrev pub cancel_listed :
      String → OrderSide → Option String → W × Result (List (OpenOrder D)) → W
  cancel_listed symbol side kept (w, ok orders) = cancel_each symbol side kept orders w
  cancel_listed symbol side kept (w, err _) = w

  unfoldable pub cancel_protection_legs : String → OrderSide → Option String → W → W
  cancel_protection_legs symbol side kept w = cancel_listed symbol side kept (b.list_open_orders w)

  abbrev pub after_sending : String → OrderSide → W × Sending → W × Closing
  after_sending symbol side (w, sent id) = (cancel_protection_legs symbol side (some id) w, closed)
  after_sending symbol side (w, already_there) = (w, closed)
  after_sending symbol side (w, uncertain) = (w, failed)
  after_sending symbol side (w, invalid_order) = (w, failed)
  after_sending symbol side (w, not_sent) = (w, failed)

  unfoldable pub close_position_at_market : String → Position D → W → W × Closing
  close_position_at_market symbol position w =
      let side = exit_side position.direction in
      after_sending symbol side (send_closing symbol side position.quantity w)

  -- What sending keeps: whatever listing the orders and submitting one keep.
  module _ (P : W → Type 0) (list_keeps : (w : W) → P w → P (b.list_open_orders w).0)
      (submit_keeps : (o : Order D) (w : W) → P w → P (b.submit o w).0) where
    after_listing_keeps :
        (symbol : String) (side : OrderSide) (r : W × Result (List (OpenOrder D)))
        → P r.0
        → P (after_listing symbol side r).0
    after_listing_keeps symbol side (w, ok orders) p = p
    after_listing_keeps symbol side (w, err _) p = p

    answered_keeps :
        (again : W → W × Sending)
        → ((w : W) → P w → P (again w).0)
        → (r : W × Result String) → P r.0
        → P (answered again r).0
    answered_keeps again h (w, ok id) p = p
    answered_keeps again h (w, err _) p = h w p

    allowed_keeps :
        (again : W → W × Sending)
        → ((w : W) → P w → P (again w).0)
        → (r : W × Resend) → P r.0
        → P (allowed again r).0
    allowed_keeps again h (w, free) p = h w p
    allowed_keeps again h (w, arrived) p = p
    allowed_keeps again h (w, unknown) p = p

    submit_order_keeps :
        (again : W → W × Sending)
        → ((w : W) → P w → P (again w).0)
        → (order : Option (Order D)) (w : W) → P w
        → P (submit_order again order w).0
    submit_order_keeps again h none w p = p
    submit_order_keeps again h (some order) w p =
        answered_keeps again h (b.submit order w) (submit_keeps order w p)

    resend_keeps :
        (symbol : String) (side : OrderSide) (q : D) (n : ℕ) (w : W)
        → P w
        → P (resend symbol side q n w).0
    unfolding resend attempt
    resend_keeps symbol side q zero w p = p
    resend_keeps symbol side q (suc n) w p =
        allowed_keeps (attempt symbol side q (resend symbol side q n))
          (submit_order_keeps (resend symbol side q n) (resend_keeps symbol side q n)
            (new_order symbol side OrderType.market q))
          (after_listing symbol side (b.list_open_orders w))
          (after_listing_keeps symbol side (b.list_open_orders w) (list_keeps w p))

    failed_keeps :
        (symbol : String) (side : OrderSide) (r : W × Sending)
        → P r.0
        → (after_sending symbol side r).1 ≡ failed
        → P (after_sending symbol side r).0
    failed_keeps symbol side (w, sent id) p e = cc
    failed_keeps symbol side (w, already_there) p e = p
    failed_keeps symbol side (w, uncertain) p e = p
    failed_keeps symbol side (w, invalid_order) p e = p
    failed_keeps symbol side (w, not_sent) p e = p

    -- When the closing at the market fails, nothing but listing orders and submitting the closing
    -- order has reached the broker: whatever these two keep still holds, so that no leg that
    -- protects the position was cancelled.
    pub close_position_at_market_keeps_protection :
        (symbol : String) (position : Position D) (w : W)
        → P w
        → (close_position_at_market symbol position w).1 ≡ failed
        → P (close_position_at_market symbol position w).0
    unfolding close_position_at_market send_closing attempt
    close_position_at_market_keeps_protection symbol position w p =
        let side = exit_side position.direction in
        failed_keeps symbol side (send_closing symbol side position.quantity w) (
          submit_order_keeps (resend symbol side position.quantity 2)
            (resend_keeps symbol side position.quantity 2)
            (new_order symbol side OrderType.market position.quantity) w p)
