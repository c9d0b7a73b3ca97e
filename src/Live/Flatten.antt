-- ===== src/Live/Flatten.antt =====
-- The end of the session: `FlattenWindow`, `in_flatten_window` and `flatten_session`. The texts of
-- the settings are read by `parse_et_time`, so the window starts from two clocks here.
use daytradebot.Base.{
  ℕ, ◌+◌, ◌*◌, ◌≡◌, ◌↔◌, ◌≤◌, ◌<◌, refl, ap, ◌∙◌, String, Bool, true, false, ◌&&◌, Option, none,
  some, arith, ltb, leb, if◌then◌else◌, Bool-cases, inl, inr,
}
use daytradebot.Decimal.{Decimal}
use daytradebot.Session.{NewYork, Clock, clock_of, et_time}
use daytradebot.Domain.Trades.{Position}
use daytradebot.TimeExit.{reset}
use daytradebot.TradeTracker.{is_open}
use daytradebot.Broker.{Result, ok, err}
use daytradebot.Live.State.{
  LiveBroker, LiveFillState, PlacedOrderInfo, Notify, is_empty, untracked_position, session_flatten,
}
use daytradebot.Live.Closing.{Closing, closed, failed, close_position_at_market}

pub record FlattenWindow : Type 0 where
  pub start_minutes : ℕ
  pub end_minutes : ℕ

abbrev pub minutes : Clock → ℕ
minutes c = c.hour * 60 + c.minute

unfoldable pub from_settings : Clock → Clock → FlattenWindow
from_settings flatten_start flatten_end = record {
  start_minutes = minutes flatten_start;
  end_minutes = minutes flatten_end;
}

unfoldable pub in_flatten_window : NewYork → ℕ → FlattenWindow → Bool
in_flatten_window ny now window =
    let m = minutes (clock_of (et_time ny now)) in
    leb window.start_minutes m && ltb m window.end_minutes

-- An instant is in the window exactly when its second of the New York day lies from the first
-- second of the window's first minute to before the first second of its last.
pub in_flatten_window_iff :
    (ny : NewYork) (now : ℕ) (window : FlattenWindow)
    → (in_flatten_window ny now window ≡ true)
      ↔ ((window.start_minutes * 60 ≤ et_time ny now) × (et_time ny now < window.end_minutes * 60))
unfolding in_flatten_window et_time
in_flatten_window_iff ny now window = (λ h. ground arith, λ h. ground arith)

module _ {D W : Type 0} ⦃d : Decimal D⦄ (b : LiveBroker W D) (notify : Notify W) where
  abbrev pub after_pending_cancel : LiveFillState D → W × Result (Unit {0}) → W × LiveFillState D
  after_pending_cancel s (w, ok _) = (w, record s { open_order = none })
  after_pending_cancel s (w, err _) = (w, s)

  abbrev pub cancel_order_info :
      LiveFillState D → Option (PlacedOrderInfo D) → W → W × LiveFillState D
  cancel_order_info s none w = (w, s)
  cancel_order_info s (some pending) w =
      if is_empty pending.broker_order_id
      then (w, s)
      else after_pending_cancel s (b.cancel pending.broker_order_id w)

  -- An entry that is still waiting is cancelled before anything else.
  abbrev pub cancel_pending : LiveFillState D → W → W × LiveFillState D
  cancel_pending s w = if is_open s.tracker then (w, s) else cancel_order_info s s.open_order w

  -- `none` is an error, and else whether a position was closed.
  abbrev pub after_closing : LiveFillState D → W × Closing → W × (LiveFillState D × Option Bool)
  after_closing s (w, closed) =
      (notify session_flatten w, (record s { time_exit = reset s.time_exit }, some true))
  after_closing s (w, failed) = (w, (record s { flatten_triggered = false }, none))

  abbrev pub flatten_position :
      String → LiveFillState D → Position D → W → W × (LiveFillState D × Option Bool)
  flatten_position symbol s position w =
      if is_open s.tracker
      then after_closing (record s { flatten_triggered = true })
          (close_position_at_market b symbol position w)
      else (notify untracked_position w, (s, some false))

  abbrev pub flatten_found :
      String
      → LiveFillState D
      → W × Result (Option (Position D))
      → W × (LiveFillState D × Option Bool)
  flatten_found symbol s (w, ok none) = (w, (s, some false))
  flatten_found symbol s (w, ok (some position)) = flatten_position symbol s position w
  flatten_found symbol s (w, err _) = (w, (s, none))

  unfoldable pub flatten_session :
      String → LiveFillState D → W → W × (LiveFillState D × Option Bool)
  flatten_session symbol s w =
      let (w', s') = cancel_pending s w in flatten_found symbol s' (b.find_position symbol w')

  after_pending_cancel-tracker :
      (s : LiveFillState D) (r : W × Result (Unit {0}))
      → ((after_pending_cancel s r).1.tracker ≡ s.tracker)
        × ((after_pending_cancel s r).1.flatten_triggered ≡ s.flatten_triggered)
  after_pending_cancel-tracker s (w, ok _) = (refl, refl)
  after_pending_cancel-tracker s (w, err _) = (refl, refl)

  cancel_order_info-tracker :
      (s : LiveFillState D) (o : Option (PlacedOrderInfo D)) (w : W)
      → ((cancel_order_info s o w).1.tracker ≡ s.tracker)
        × ((cancel_order_info s o w).1.flatten_triggered ≡ s.flatten_triggered)
  cancel_order_info-tracker s none w = (refl, refl)
  cancel_order_info-tracker s (some p) w = elim (Bool-cases (is_empty p.broker_order_id)) [
    | inl e ↦ rw e (refl, refl)
    | inr e ↦ rw e (after_pending_cancel-tracker s (b.cancel p.broker_order_id w))
  ]

  cancel_pending-tracker :
      (s : LiveFillState D) (w : W)
      → ((cancel_pending s w).1.tracker ≡ s.tracker)
        × ((cancel_pending s w).1.flatten_triggered ≡ s.flatten_triggered)
  cancel_pending-tracker s w = elim (Bool-cases (is_open s.tracker)) [
    | inl e ↦ rw e (refl, refl)
    | inr e ↦ rw e (cancel_order_info-tracker s s.open_order w)
  ]

  -- The mark that the flattening was triggered, and that it closed a position, agree.
  abbrev IsMarked : W × (LiveFillState D × Option Bool) → Type 0
  IsMarked r = (r.1.0.flatten_triggered ≡ true) ↔ (r.1.1 ≡ some true)

  after_closing-IsMarked :
      (s : LiveFillState D) (r : W × Closing)
      → s.flatten_triggered ≡ true
      → IsMarked (after_closing s r)
  after_closing-IsMarked s (w, closed) h = (λ e. refl, λ e. h)
  after_closing-IsMarked s (w, failed) h = (λ e. cc, λ e. cc)

  flatten_position-IsMarked :
      (symbol : String) (s : LiveFillState D) (p : Position D) (w : W)
      → s.flatten_triggered ≡ false
      → IsMarked (flatten_position symbol s p w)
  flatten_position-IsMarked symbol s p w h = elim (Bool-cases (is_open s.tracker)) [
    | inl e ↦ rw e (
        after_closing-IsMarked (record s { flatten_triggered = true })
          (close_position_at_market b symbol p w) refl)
    | inr e ↦ rw e (λ e. cc, λ e. cc)
  ]

  flatten_found-IsMarked :
      (symbol : String) (s : LiveFillState D) (r : W × Result (Option (Position D)))
      → s.flatten_triggered ≡ false
      → IsMarked (flatten_found symbol s r)
  flatten_found-IsMarked symbol s (w, ok none) h = (λ e. cc, λ e. cc)
  flatten_found-IsMarked symbol s (w, ok (some p)) h = flatten_position-IsMarked symbol s p w h
  flatten_found-IsMarked symbol s (w, err _) h = (λ e. cc, λ e. cc)

  -- A session's flattening that starts unmarked leaves the mark that it was triggered exactly when it
  -- closed a position: after an error, and when nothing was closed, the next tick tries again.
  pub flatten_session_marks :
      (symbol : String) (s : LiveFillState D) (w : W)
      → s.flatten_triggered ≡ false
      → ((flatten_session symbol s w).1.0.flatten_triggered ≡ true)
        ↔ ((flatten_session symbol s w).1.1 ≡ some true)
  unfolding flatten_session
  flatten_session_marks symbol s w h =
      let r = cancel_pending s w in
      flatten_found-IsMarked symbol r.1 (b.find_position symbol r.0)
        ((cancel_pending-tracker s w).1 ∙ h)

  module _ (P : W → Type 0) (find_keeps : (k : String) (w : W) → P w → P (b.find_position k w).0)
      (cancel_keeps : (id : String) (w : W) → P w → P (b.cancel id w).0)
      (notify_keeps : (w : W) → P w → P (notify untracked_position w)) where
    after_pending_cancel_keeps :
        (s : LiveFillState D) (r : W × Result (Unit {0})) → P r.0 → P (after_pending_cancel s r).0
    after_pending_cancel_keeps s (w, ok _) p = p
    after_pending_cancel_keeps s (w, err _) p = p

    cancel_order_info_keeps :
        (s : LiveFillState D) (o : Option (PlacedOrderInfo D)) (w : W)
        → P w
        → P (cancel_order_info s o w).0
    cancel_order_info_keeps s none w p = p
    cancel_order_info_keeps s (some o) w p = elim (Bool-cases (is_empty o.broker_order_id)) [
      | inl e ↦ rw e p
      | inr e ↦ rw e (
          after_pending_cancel_keeps s (b.cancel o.broker_order_id w)
            (cancel_keeps o.broker_order_id w p))
    ]

    flatten_untracked_keeps :
        (symbol : String) (s : LiveFillState D) (r : W × Result (Option (Position D)))
        → is_open s.tracker ≡ false
        → P r.0
        → P (flatten_found symbol s r).0
    flatten_untracked_keeps symbol s (w, ok none) shut p = p
    flatten_untracked_keeps symbol s (w, ok (some position)) shut p = rw shut (notify_keeps w p)
    flatten_untracked_keeps symbol s (w, err _) shut p = p

    -- An instance that tracks no position of its own sends no order when the session is flattened,
    -- whatever the broker holds: what reading the position, cancelling an order and the alert keep is
    -- kept.
    pub flatten_session_untracked :
        (symbol : String) (s : LiveFillState D) (w : W)
        → is_open s.tracker ≡ false
        → P w
        → P (flatten_session symbol s w).0
    unfolding flatten_session
    flatten_session_untracked symbol s w shut p =
        let r = cancel_pending s w in
        let start : P r.0 = rw shut (cancel_order_info_keeps s s.open_order w p) in
        flatten_untracked_keeps symbol r.1 (b.find_position symbol r.0)
          (ap is_open (cancel_pending-tracker s w).0 ∙ shut) (find_keeps symbol r.0 start)
