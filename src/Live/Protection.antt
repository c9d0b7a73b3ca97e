-- ===== src/Live/Protection.antt =====
-- The watch over a position's stop, `ensure_stop_protection`, and `find_exposure`.
use daytradebot.Base.{
  ◌+◌, ◌≡◌, refl, ap, String, Bool, true, false, ◌&&◌, Option, none, some, List, [], ◌∷◌, arith,
  ltb, if◌then◌else◌, string_key,
}
use daytradebot.Decimal.{Decimal, ◌≺◌, le, lt}
use daytradebot.Domain.Signals.{Direction}
use daytradebot.Domain.Orders.{Order, OrderType, OrderSide, new_order}
use daytradebot.Domain.Trades.{Position}
use daytradebot.TradeTracker.{get_or}
use daytradebot.Broker.{Result, ok, err}
use daytradebot.Live.State.{
  LiveBroker, LiveFillState, OpenOrder, Notify, LiveAlert, exit_side, protection_quantity_mismatch,
  position_unprotected, stop_replaced,
}
use daytradebot.Live.Closing.{is_exit_of}

-- What the broker holds for a symbol.
pub data LiveExposure (D : Type 0) : Type 0 where
  no_exposure : LiveExposure D
  position : D → Direction → LiveExposure D
  open_orders : List String → LiveExposure D

abbrev pub is_stop : OrderType → Bool
is_stop OrderType.stop = true
is_stop _ = false

module _ {D : Type 0} where
  unfoldable pub orders_of : String → List (OpenOrder D) → List String
  orders_of symbol [] = []
  orders_of symbol (o ∷ os) =
      let rest = orders_of symbol os in
      if string_key.same o.order.symbol symbol then get_or o.broker_order_id "?" ∷ rest else rest

  abbrev pub exposure_of : List String → LiveExposure D
  exposure_of [] = no_exposure
  exposure_of (id ∷ ids) = open_orders (id ∷ ids)

  -- The leg that protects a position: a stop on the exit side.
  unfoldable pub find_protection : String → OrderSide → List (OpenOrder D) → Option (Order D)
  find_protection symbol side [] = none
  find_protection symbol side (o ∷ os) =
      if is_exit_of symbol side o && is_stop o.order.order_type
      then some o.order
      else find_protection symbol side os

module _ {D W : Type 0} (b : LiveBroker W D) where
  abbrev pub listed_exposure :
      String → W × Result (List (OpenOrder D)) → W × Result (LiveExposure D)
  listed_exposure symbol (w, ok orders) = (w, ok (exposure_of (orders_of symbol orders)))
  listed_exposure symbol (w, err e) = (w, err e)

  abbrev pub exposure_at : String → W × Result (Option (Position D)) → W × Result (LiveExposure D)
  exposure_at symbol (w, ok (some p)) = (w, ok (position p.quantity p.direction))
  exposure_at symbol (w, ok none) = listed_exposure symbol (b.list_open_orders w)
  exposure_at symbol (w, err e) = (w, err e)

  unfoldable pub find_exposure : String → W → W × Result (LiveExposure D)
  find_exposure symbol w = exposure_at symbol (b.find_position symbol w)

module _ {D W : Type 0} ⦃d : Decimal D⦄ (b : LiveBroker W D) (notify : Notify W) where
  -- The stop is sent, and the count starts again if the broker takes it.
  abbrev pub after_stop : LiveFillState D → W × Result String → W × LiveFillState D
  after_stop s (w, ok id) = (notify stop_replaced w, record s { unprotected_streak = 0 })
  after_stop s (w, err _) = (notify stop_replaced w, s)

  abbrev pub submit_stop : LiveFillState D → D → Option (Order D) → W → W × LiveFillState D
  submit_stop s stop_price none w = (w, s)
  submit_stop s stop_price (some order) w =
      after_stop s (b.submit (record order { stop_price = some stop_price }) w)

  abbrev pub known : Option D → Option D
  known none = none
  known (some price) = if lt d.nought price then some price else none

  abbrev pub place_stop : String → Position D → LiveFillState D → Option D → W → W × LiveFillState D
  place_stop symbol p s none w = (notify position_unprotected w, s)
  place_stop symbol p s (some stop_price) w =
      submit_stop s stop_price (new_order symbol (exit_side p.direction) OrderType.stop p.quantity)
        w

  unfoldable pub unprotected :
      String → Position D → Option D → LiveFillState D → W → W × LiveFillState D
  unprotected symbol p known_stop s w =
      let s' : LiveFillState D = record s { unprotected_streak = s.unprotected_streak + 1 } in
      let w' = notify position_unprotected w in
      if ltb s'.unprotected_streak 2 then (w', s') else place_stop symbol p s' (known known_stop) w'

  abbrev pub protected : Position D → LiveFillState D → Order D → W → W × LiveFillState D
  protected p s leg w = (
    if le leg.quantity p.quantity && le p.quantity leg.quantity
        then w
        else notify protection_quantity_mismatch w,
    record s { unprotected_streak = 0 },
  )

  abbrev pub watch_leg :
      String → Position D → Option D → LiveFillState D → W → Option (Order D) → W × LiveFillState D
  watch_leg symbol p known_stop s w (some leg) = protected p s leg w
  watch_leg symbol p known_stop s w none = unprotected symbol p known_stop s w

  abbrev pub watch_listed :
      String
      → Position D
      → Option D
      → LiveFillState D
      → W × Result (List (OpenOrder D))
      → W × LiveFillState D
  watch_listed symbol p known_stop s (w, ok orders) =
      watch_leg symbol p known_stop s w (find_protection symbol (exit_side p.direction) orders)
  watch_listed symbol p known_stop s (w, err _) = (w, s)

  unfoldable pub ensure_stop_protection :
      String → Position D → Option D → LiveFillState D → W → W × LiveFillState D
  ensure_stop_protection symbol p known_stop s w =
      watch_listed symbol p known_stop s (b.list_open_orders w)

  module _ (P : W → Type 0) (list_keeps : (w : W) → P w → P (b.list_open_orders w).0)
      (notify_keeps : (a : LiveAlert) (w : W) → P w → P (notify a w)) where
    protected_keeps :
        (p : Position D) (s : LiveFillState D) (leg : Order D) (w : W)
        → P w
        → P (protected p s leg w).0
    protected_keeps p s leg w h = ground (arith, h, notify_keeps protection_quantity_mismatch w h)

    unprotected_keeps :
        (symbol : String) (p : Position D) (known_stop : Option D) (s : LiveFillState D) (w : W)
        → s.unprotected_streak ≡ 0
        → P w
        → P (unprotected symbol p known_stop s w).0
    unfolding unprotected
    unprotected_keeps symbol p known_stop s w fresh h =
        let first = ap (λ n. ltb (n + 1) 2) fresh in
        rw first (notify_keeps position_unprotected w h)

    watch_leg_keeps :
        (symbol : String) (p : Position D) (known_stop : Option D) (s : LiveFillState D) (w : W)
        (leg : Option (Order D))
        → s.unprotected_streak ≡ 0
        → P w
        → P (watch_leg symbol p known_stop s w leg).0
    watch_leg_keeps symbol p known_stop s w (some leg) fresh h = protected_keeps p s leg w h
    watch_leg_keeps symbol p known_stop s w none fresh h =
        unprotected_keeps symbol p known_stop s w fresh h

    watch_listed_keeps :
        (symbol : String) (p : Position D) (known_stop : Option D) (s : LiveFillState D)
        (r : W × Result (List (OpenOrder D)))
        → s.unprotected_streak ≡ 0
        → P r.0
        → P (watch_listed symbol p known_stop s r).0
    watch_listed_keeps symbol p known_stop s (w, ok os) fresh h =
        watch_leg_keeps symbol p known_stop s w (find_protection symbol (exit_side p.direction) os)
          fresh h
    watch_listed_keeps symbol p known_stop s (w, err _) fresh h = h

    -- The first time in a row that no stop is found, no order is sent: what listing the orders and the
    -- alerts keep is kept.
    pub ensure_stop_protection_waits :
        (symbol : String) (p : Position D) (known_stop : Option D) (s : LiveFillState D) (w : W)
        → s.unprotected_streak ≡ 0
        → P w
        → P (ensure_stop_protection symbol p known_stop s w).0
    unfolding ensure_stop_protection
    ensure_stop_protection_waits symbol p known_stop s w fresh h =
        watch_listed_keeps symbol p known_stop s (b.list_open_orders w) fresh (list_keeps w h)

  -- Two detections in a row put a stop back: where two listings that follow each other show no stop on
  -- the exit side, the stop's price is known and positive, the quantity makes an order, and the
  -- broker takes it, the second detection has sent that order with the stop's price, and the count
  -- starts again.
  pub ensure_stop_protection_replaces :
      (symbol : String) (p : Position D) (stop_price : D) (s : LiveFillState D) (order : Order D)
      (os os2 : List (OpenOrder D)) (id : String) (w w1 w2 w3 : W)
      → s.unprotected_streak ≡ 0
      → b.list_open_orders w ≡ (w1, ok os)
      → find_protection symbol (exit_side p.direction) os ≡ none
      → b.list_open_orders (notify position_unprotected w1) ≡ (w2, ok os2)
      → find_protection symbol (exit_side p.direction) os2 ≡ none
      → d.nought ≺ stop_price
      → new_order symbol (exit_side p.direction) OrderType.stop p.quantity ≡ some order
      → b.submit (record order { stop_price = some stop_price }) (notify position_unprotected w2)
        ≡ (w3, ok id)
      → (let (w', s') = ensure_stop_protection symbol p (some stop_price) s w in
          ensure_stop_protection symbol p (some stop_price) s' w')
        ≡ (notify stop_replaced w3, record s { unprotected_streak = 0 })
  unfolding ensure_stop_protection unprotected
  ensure_stop_protection_replaces symbol p stop_price s order os os2 id w w1 w2 w3 fresh listed1
        none1 listed2 none2 pos made sent =
      rw (listed1, none1, fresh, listed2, none2, pos, made, sent) refl
