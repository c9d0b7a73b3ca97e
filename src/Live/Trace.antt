-- ===== src/Live/Trace.antt =====
-- The calls of a broker as the worker makes them, in a log with the latest call first.
use daytradebot.Base.{
  ℕ, ◌+◌, String, Bool, true, false, not, ◌&&◌, ◌||◌, Option, none, some, List, [], ◌∷◌, string_key,
  ◌==◌,
}
use daytradebot.Domain.Orders.{OrderSide}
use daytradebot.Broker.{Result, ok, err, is_some}
use daytradebot.Live.State.{LiveBroker, OpenOrder}
use daytradebot.Live.Closing.{any_exit, Closing, closed, failed}

pub data Event (D : Type 0) : Type 0 where
  listed : Result (List (OpenOrder D)) → Event D
  submitted : Result String → Event D
  cancelled : String → Event D

-- The world of a broker with the calls so far.
abbrev pub Logged : Type 0 → Type 0 → Type 0
Logged W D = W × List (Event D)

-- The answer to a call, noted in the log.
abbrev pub noted : {W D A : Type 0} → (A → Event D) → List (Event D) → W × A → Logged W D × A
noted event log (w, a) = ((w, event a ∷ log), a)

abbrev pub carried : {W D A : Type 0} → List (Event D) → W × A → Logged W D × A
carried log (w, a) = ((w, log), a)

-- The same broker, with a log.
abbrev pub recorded : {W D : Type 0} → LiveBroker W D → LiveBroker (Logged W D) D
recorded b = record {
  account_equity = λ s. carried s.1 (b.account_equity s.0);
  list_positions = λ s. carried s.1 (b.list_positions s.0);
  find_position = λ symbol s. carried s.1 (b.find_position symbol s.0);
  list_open_orders = λ s. noted listed s.1 (b.list_open_orders s.0);
  submit = λ order s. noted submitted s.1 (b.submit order s.0);
  cancel = λ id s. noted (λ a. cancelled id) s.1 (b.cancel id s.0);
}

abbrev pub is_other : Option String → String → Bool
is_other none id = false
is_other (some kept) id = not (string_key.same kept id)

module _ {D : Type 0} where
  -- The id of the order that was accepted last.
  unfoldable pub accepted : List (Event D) → Option String
  accepted [] = none
  accepted (submitted (ok id) ∷ log) = some id
  accepted (submitted (err _) ∷ log) = accepted log
  accepted (listed _ ∷ log) = accepted log
  accepted (cancelled _ ∷ log) = accepted log

  unfoldable pub submissions : List (Event D) → ℕ
  submissions [] = 0
  submissions (submitted _ ∷ log) = submissions log + 1
  submissions (listed _ ∷ log) = submissions log
  submissions (cancelled _ ∷ log) = submissions log

  abbrev pub is_unanswered : List (Event D) → Bool
  is_unanswered (listed (err _) ∷ log) = true
  is_unanswered _ = false

  module _ (symbol : String) (side : OrderSide) where
    -- After these calls an order may be sent: there are none, or the last one is a listing without an
    -- exit order, right after a submission that was answered with an error.
    abbrev pub may_submit : List (Event D) → Bool
    may_submit [] = true
    may_submit (listed (ok os) ∷ submitted (err _) ∷ log) = not (any_exit symbol side os)
    may_submit _ = false

    -- Every submission was one that may be made, and every cancellation came after an order was
    -- accepted and was of another order.
    unfoldable pub is_guarded : List (Event D) → Bool
    is_guarded [] = true
    is_guarded (submitted _ ∷ log) = may_submit log && is_guarded log
    is_guarded (cancelled id ∷ log) = is_other (accepted log) id && is_guarded log
    is_guarded (listed _ ∷ log) = is_guarded log

    abbrev pub shows_exit : List (Event D) → Bool
    shows_exit (listed (ok os) ∷ log) = any_exit symbol side os
    shows_exit _ = false

    -- A success has an accepted order, or a last listing with an exit order. A failure has no accepted
    -- order; there can be no such order, or the last listing has no answer, or three were sent.
    abbrev pub explains : Bool → Closing → List (Event D) → Bool
    explains is_possible closed log = is_some (accepted log) || shows_exit log
    explains is_possible failed log =
        not (is_some (accepted log))
        && (not is_possible || is_unanswered log || submissions log == 3)
