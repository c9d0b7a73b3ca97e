-- ===== src/Live/Looks.antt =====
-- The calls that the closing of a position makes at the broker.
use daytradebot.Base.{
  sym, not, ◌||◌, ◌==◌, Bool, ℕ, zero, suc, ◌+◌, ◌≤◌, ◌≡◌, ◌≢◌, refl, String, true, false, Option,
  none, some, List, [], ◌∷◌, string_key, arith, Bool-cases, inl, inr,
}
use daytradebot.Decimal.{Decimal}
use daytradebot.Domain.Orders.{Order, OrderSide, OrderType, new_order}
use daytradebot.Domain.Trades.{Position}
use daytradebot.Broker.{Result, ok, err, BrokerError, is_some}
use daytradebot.Live.State.{LiveBroker, OpenOrder, exit_side}
use daytradebot.Live.Closing.{
  Sending, sent, already_there, uncertain, invalid_order, not_sent, closed, failed, any_exit,
  after_listing, answered, allowed, attempt, resend, send_closing, submit_order, after_sending,
  cancel_protection_legs, close_position_at_market, Closing,
}
use daytradebot.Live.Sends.{cancel_protection_legs_keeps_closing_order}
use daytradebot.Live.Recorded.{forget, close_position_at_market-recorded}
use daytradebot.Live.Trace.{
  Event, listed, submitted, cancelled, Logged, noted, recorded, accepted, submissions, may_submit,
  is_guarded, shows_exit, is_unanswered, explains,
}

module _ {D W : Type 0} ⦃d : Decimal D⦄ (b : LiveBroker W D) (symbol : String) (side : OrderSide)
    (is_possible : Bool) where
  -- A log without an accepted order, so many submissions before the last one.
  abbrev IsOpen : ℕ → List (Event D) → Type 0
  IsOpen k log =
      (is_guarded symbol side log ≡ true) × (accepted log ≡ none) × (submissions log + k ≡ 3)

  -- A log without an accepted order, where the sending has ended.
  abbrev IsFresh : List (Event D) → Type 0
  IsFresh log = (is_guarded symbol side log ≡ true) × (accepted log ≡ none) × (submissions log ≤ 3)

  -- A log with an accepted order.
  abbrev IsTaken : String → List (Event D) → Type 0
  IsTaken id log =
      (is_guarded symbol side log ≡ true) × (accepted log ≡ some id) × (submissions log ≤ 3)

  -- What the log says at the end of the sending.
  abbrev IsSent : Logged W D × Sending → Type 0
  IsSent ((w, log), sent id) = IsTaken id log
  IsSent ((w, log), already_there) = IsFresh log × (shows_exit symbol side log ≡ true)
  IsSent ((w, log), uncertain) = IsFresh log × (is_unanswered log ≡ true)
  IsSent ((w, log), invalid_order) = IsFresh log × (is_possible ≡ false)
  IsSent ((w, log), not_sent) = IsOpen 0 log

  answered-IsSent :
      (again : Logged W D → Logged W D × Sending) (n : ℕ) (log : List (Event D))
      → ((w : W) (log : List (Event D)) (e : BrokerError)
          → IsOpen n (submitted (err e) ∷ log)
          → IsSent (again (w, submitted (err e) ∷ log)))
      → may_submit symbol side log ≡ true
      → IsOpen (suc n) log
      → (r : W × Result String) → IsSent (answered again (noted submitted log r))
  unfolding is_guarded accepted submissions
  answered-IsSent again n log h may (guarded, fresh, room) (w, ok id) =
      (ground arith, refl, omega arith)
  answered-IsSent again n log h may (guarded, fresh, room) (w, err e) =
      h w log e (ground arith, fresh, omega arith)

  submit_order-IsSent :
      (again : Logged W D → Logged W D × Sending) (n : ℕ) (order : Option (Order D)) (w : W)
      (log : List (Event D))
      → ((w : W) (log : List (Event D)) (e : BrokerError)
          → IsOpen n (submitted (err e) ∷ log)
          → IsSent (again (w, submitted (err e) ∷ log)))
      → is_some order ≡ is_possible
      → may_submit symbol side log ≡ true
      → IsOpen (suc n) log
      → IsSent (submit_order (recorded b) again order (w, log))
  submit_order-IsSent again n none w log h same may (guarded, fresh, room) =
      ((guarded, fresh, omega arith), sym same)
  submit_order-IsSent again n (some order) w log h same may room =
      answered-IsSent again n log h may room (b.submit order w)

  allowed-IsSent :
      (again : Logged W D → Logged W D × Sending) (n : ℕ) (log : List (Event D)) (e : BrokerError)
      → ((w : W) (log : List (Event D))
          → may_submit symbol side log ≡ true
          → IsOpen (suc n) log
          → IsSent (again (w, log)))
      → IsOpen (suc n) (submitted (err e) ∷ log)
      → (r : W × Result (List (OpenOrder D)))
      → IsSent
          (allowed again (after_listing symbol side (noted listed (submitted (err e) ∷ log) r)))
  unfolding is_guarded accepted submissions
  allowed-IsSent again n log e h (guarded, fresh, room) (w, ok os) =
      elim (Bool-cases (any_exit symbol side os)) [
        | inl shown ↦ rw shown ((guarded, fresh, omega arith), shown)
        | inr missing ↦ rw missing (
            h w (listed (ok os) ∷ submitted (err e) ∷ log) (rw missing refl) (guarded, fresh, room))
      ]
  allowed-IsSent again n log e h (guarded, fresh, room) (w, err x) =
      ((guarded, fresh, omega arith), refl)

  resend-IsSent :
      (q : D)
      → is_some (new_order symbol side OrderType.market q) ≡ is_possible
      → (n : ℕ) (w : W) (log : List (Event D)) (e : BrokerError)
      → IsOpen n (submitted (err e) ∷ log)
      → IsSent (resend (recorded b) symbol side q n (w, submitted (err e) ∷ log))
  unfolding resend attempt
  resend-IsSent q same zero w log e room = room
  resend-IsSent q same (suc n) w log e room =
      allowed-IsSent (attempt (recorded b) symbol side q (resend (recorded b) symbol side q n)) n
        log e
        (λ v l may open_log.
          submit_order-IsSent (resend (recorded b) symbol side q n) n
            (new_order symbol side OrderType.market q) v l (resend-IsSent q same n) same may
            open_log)
        room (b.list_open_orders w)

  -- Any cancellation of another order keeps what is said of the log.
  cancelled-IsTaken :
      (kept id : String) (log : List (Event D))
      → kept ≢ id
      → IsTaken kept log
      → IsTaken kept (cancelled id ∷ log)
  unfolding is_guarded accepted submissions
  cancelled-IsTaken kept id log other (guarded, taken, count) =
      let distinct : string_key.same kept id ≡ false = elim (Bool-cases (string_key.same kept id)) [
        | inl e ↦ absurd (other ((string_key.same_iff kept id).0 e))
        | inr e ↦ e
      ] in
      (rw (taken, distinct) guarded, taken, count)

  listed-IsTaken :
      (kept : String) (a : Result (List (OpenOrder D))) (log : List (Event D))
      → IsTaken kept log
      → IsTaken kept (listed a ∷ log)
  unfolding is_guarded accepted submissions
  listed-IsTaken kept a log h = h

  -- A log that keeps the rules, with the answer explained.
  abbrev pub IsLookedAfter : Logged W D × Closing → Type 0
  IsLookedAfter ((w, log), answer) =
      (is_guarded symbol side log ≡ true)
      × (submissions log ≤ 3)
      × (explains symbol side is_possible answer log ≡ true)

  closed-IsLookedAfter : (id : String) (s : Logged W D) → IsTaken id s.1 → IsLookedAfter (s, closed)
  closed-IsLookedAfter id (w, log) (guarded, taken, count) = (guarded, count, rw taken refl)

  failed-IsLookedAfter :
      (w : W) (log : List (Event D))
      → IsFresh log
      → (not is_possible || is_unanswered log || submissions log == 3) ≡ true
      → IsLookedAfter ((w, log), failed)
  failed-IsLookedAfter w log (guarded, fresh, count) why = (guarded, count, rw fresh why)

  after_sending-IsLookedAfter :
      (r : Logged W D × Sending)
      → IsSent r
      → IsLookedAfter (after_sending (recorded b) symbol side r)
  after_sending-IsLookedAfter ((w, log), sent id) h =
      closed-IsLookedAfter id (cancel_protection_legs (recorded b) symbol side (some id) (w, log)) (
        cancel_protection_legs_keeps_closing_order (recorded b) id (λ s. IsTaken id s.1)
          (λ s p. listed-IsTaken id (b.list_open_orders s.0).1 s.1 p)
          (λ j s other p. cancelled-IsTaken id j s.1 other p) symbol side (w, log) h)
  after_sending-IsLookedAfter ((w, log), already_there) ((guarded, fresh, count), shown) =
      (guarded, omega arith, rw (fresh, shown) refl)
  after_sending-IsLookedAfter ((w, log), uncertain) (h, silent) =
      failed-IsLookedAfter w log h (ground arith)
  after_sending-IsLookedAfter ((w, log), invalid_order) (h, impossible) =
      failed-IsLookedAfter w log h (ground arith)
  after_sending-IsLookedAfter ((w, log), not_sent) (guarded, fresh, count) =
      failed-IsLookedAfter w log (guarded, fresh, omega arith) (ground arith)

-- In closing a position, each order is sent first, or right after a listing of the open orders without
-- an exit order of the symbol that came right after a submission answered with an error; no more than
-- three are sent. An order is cancelled only after one was accepted, and never that one. A success
-- has an accepted order or a last listing with an exit order. A failure has no accepted order, and
-- either no closing order can be made of that quantity, or the last listing has no answer, or three
-- orders were sent. These are the calls of the broker as it is: the log changes neither its world nor
-- the answer.
pub close_position_at_market-IsLookedAfter :
    {W D : Type 0} ⦃d : Decimal D⦄ (b : LiveBroker W D) (symbol : String) (position : Position D)
    (w : W)
    → let r = close_position_at_market (recorded b) symbol position (w, []) in
      let side = exit_side position.direction in
      IsLookedAfter b symbol side
        (is_some (new_order symbol side OrderType.market position.quantity))
        r
      × (forget r ≡ close_position_at_market b symbol position w)
unfolding close_position_at_market send_closing attempt is_guarded accepted submissions
close_position_at_market-IsLookedAfter b symbol position w =
    let side = exit_side position.direction in
    let q = position.quantity in
    let order = new_order symbol side OrderType.market q in
    (
      after_sending-IsLookedAfter b symbol side (is_some order)
          (send_closing (recorded b) symbol side q (w, []))
          (submit_order-IsSent b symbol side (is_some order) (resend (recorded b) symbol side q 2) 2
            order w [] (resend-IsSent b symbol side (is_some order) q refl 2) refl refl
            (refl, refl, omega arith)),
      close_position_at_market-recorded b symbol position (w, []),
    )
