-- ===== src/Live/Recorded.antt =====
-- A log changes nothing of the closing of a position.
use daytradebot.Base.{
  ℕ, zero, suc, ◌≡◌, refl, ◌∙◌, ap, String, Bool, true, false, Option, none, some, List, [], ◌∷◌,
  Bool-cases, inl, inr, string_key, if◌then◌else◌,
}
use daytradebot.Decimal.{Decimal}
use daytradebot.Domain.Orders.{Order, OrderSide, OrderType, new_order}
use daytradebot.Domain.Trades.{Position}
use daytradebot.Broker.{Result, ok, err}
use daytradebot.Live.State.{LiveBroker, OpenOrder, exit_side}
use daytradebot.Live.Closing.{
  closed, Sending, sent, already_there, uncertain, invalid_order, not_sent, is_exit_of, any_exit,
  after_listing, answered, allowed, attempt, resend, send_closing, submit_order, cancel_unless_kept,
  cancel_each, cancel_listed, cancel_protection_legs, after_sending, close_position_at_market,
}
use daytradebot.Live.Trace.{Event, listed, submitted, Logged, noted, recorded}

abbrev pub forget : {W D A : Type 0} → Logged W D × A → W × A
forget ((w, log), a) = (w, a)

module _ {D W : Type 0} ⦃d : Decimal D⦄ (b : LiveBroker W D) (symbol : String)
    (side : OrderSide) where
  cancel_unless_kept-recorded :
      (kept id : Option String) (s : Logged W D)
      → (cancel_unless_kept (recorded b) kept id s).0 ≡ cancel_unless_kept b kept id s.0
  cancel_unless_kept-recorded kept none s = refl
  cancel_unless_kept-recorded none (some id) s = refl
  cancel_unless_kept-recorded (some kept) (some id) s =
      elim (Bool-cases (string_key.same kept id)) [ inl e ↦ rw e refl | inr e ↦ rw e refl ]

  cancel_if-recorded :
      (t : Bool) (kept id : Option String) (s : Logged W D)
      → (if t then cancel_unless_kept (recorded b) kept id s else s).0
        ≡ (if t then cancel_unless_kept b kept id s.0 else s.0)
  cancel_if-recorded true kept id s = cancel_unless_kept-recorded kept id s
  cancel_if-recorded false kept id s = refl

  cancel_each-recorded :
      (kept : Option String) (os : List (OpenOrder D)) (s : Logged W D)
      → (cancel_each (recorded b) symbol side kept os s).0 ≡ cancel_each b symbol side kept os s.0
  unfolding cancel_each
  cancel_each-recorded kept [] s = refl
  cancel_each-recorded kept (o ∷ os) s =
      let exit = is_exit_of symbol side o in
      cancel_each-recorded kept os
        (if exit then cancel_unless_kept (recorded b) kept o.broker_order_id s else s)
      ∙ ap (cancel_each b symbol side kept os) (cancel_if-recorded exit kept o.broker_order_id s)

  cancel_listed-recorded :
      (kept : Option String) (log : List (Event D)) (r : W × Result (List (OpenOrder D)))
      → (cancel_listed (recorded b) symbol side kept (noted listed log r)).0
        ≡ cancel_listed b symbol side kept r
  cancel_listed-recorded kept log (w, ok os) =
      cancel_each-recorded kept os (w, listed (ok os) ∷ log)
  cancel_listed-recorded kept log (w, err _) = refl

  after_sending-recorded :
      (r : Logged W D × Sending)
      → forget (after_sending (recorded b) symbol side r) ≡ after_sending b symbol side (forget r)
  unfolding cancel_protection_legs
  after_sending-recorded ((w, log), sent id) =
      ap (λ v. (v, closed)) (cancel_listed-recorded (some id) log (b.list_open_orders w))
  after_sending-recorded ((w, log), already_there) = refl
  after_sending-recorded ((w, log), uncertain) = refl
  after_sending-recorded ((w, log), invalid_order) = refl
  after_sending-recorded ((w, log), not_sent) = refl

  module _ (again : Logged W D → Logged W D × Sending) (again_b : W → W × Sending)
      (same : (s : Logged W D) → forget (again s) ≡ again_b s.0) where
    answered-recorded :
        (log : List (Event D)) (r : W × Result String)
        → forget (answered again (noted submitted log r)) ≡ answered again_b r
    answered-recorded log (w, ok id) = refl
    answered-recorded log (w, err e) = same (w, submitted (err e) ∷ log)

    submit_order-recorded :
        (order : Option (Order D)) (s : Logged W D)
        → forget (submit_order (recorded b) again order s) ≡ submit_order b again_b order s.0
    submit_order-recorded none s = refl
    submit_order-recorded (some order) s = answered-recorded s.1 (b.submit order s.0)

    allowed-recorded :
        (log : List (Event D)) (r : W × Result (List (OpenOrder D)))
        → forget (allowed again (after_listing symbol side (noted listed log r)))
          ≡ allowed again_b (after_listing symbol side r)
    allowed-recorded log (w, ok os) = elim (Bool-cases (any_exit symbol side os)) [
      | inl e ↦ rw e refl
      | inr e ↦ rw e (same (w, listed (ok os) ∷ log))
    ]
    allowed-recorded log (w, err _) = refl

  resend-recorded :
      (q : D) (n : ℕ) (s : Logged W D)
      → forget (resend (recorded b) symbol side q n s) ≡ resend b symbol side q n s.0
  unfolding resend attempt
  resend-recorded q zero s = refl
  resend-recorded q (suc n) s =
      let order = new_order symbol side OrderType.market q in
      allowed-recorded (attempt (recorded b) symbol side q (resend (recorded b) symbol side q n))
        (attempt b symbol side q (resend b symbol side q n))
        (submit_order-recorded (resend (recorded b) symbol side q n) (resend b symbol side q n)
          (resend-recorded q n) order)
        s.1 (b.list_open_orders s.0)

pub close_position_at_market-recorded :
    {W D : Type 0} ⦃d : Decimal D⦄ (b : LiveBroker W D) (symbol : String) (position : Position D)
    (s : Logged W D)
    → forget (close_position_at_market (recorded b) symbol position s)
      ≡ close_position_at_market b symbol position s.0
unfolding close_position_at_market send_closing attempt
close_position_at_market-recorded b symbol position s =
    let side = exit_side position.direction in
    let q = position.quantity in
    after_sending-recorded b symbol side (send_closing (recorded b) symbol side q s)
    ∙ ap (after_sending b symbol side) (
        submit_order-recorded b symbol side (resend (recorded b) symbol side q 2)
          (resend b symbol side q 2) (resend-recorded b symbol side q 2)
          (new_order symbol side OrderType.market q) s)
