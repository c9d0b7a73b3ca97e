-- ===== src/Strategies/Checks.antt =====
-- What the strategies share: how `analyze_candles` leaves at the first refusal, the window of the
-- session, and the ratio that a signal promises.
use daytradebot.Base.{
  ◌∙◌, ℕ, ◌≤◌, ◌||◌, ltb, ◌≡◌, refl, ap, sym, Bool, not, true, false, Option, none, some, String,
  List, get_last?, Option-cases, map, foldl, take, drop, ◌-◌, ◌+◌, [], ◌∷◌, inl, inr, ◌⊎◌, arith,
  if◌then◌else◌,
}
use daytradebot.Decimal.{Decimal, ◌⊕◌, ◌⊖◌, ◌⊘◌, ◌≼◌, lt, max, min}
use daytradebot.Session.{NewYork, Clock, within_trading_window}
use daytradebot.Domain.Market.{Candle, TimeFrame}
use daytradebot.Domain.Orders.{EntryOrderType}
use daytradebot.Domain.Signals.{
  Direction, long, short, Signal, SignalResult, signal, refused, RejectionReason, SignalStatus,
}
use daytradebot.Risk.{Check, go_on, reject, reject_if, ◌>>=◌, ◌>>◌, Prices, prices_of, risk_reward}

-- The part of a list from one index up to another.
abbrev pub slice : {A : Type 0} → ℕ → ℕ → List A → List A
slice first last xs = take (last - first) (drop first xs)

-- A value that has to be there.
abbrev pub needed : {A : Type 0} → Option A → Check A
needed none = reject RejectionReason.incomplete_setup
needed (some a) = go_on a

-- A stretch that goes on has gone on before.
pub bind-go_on :
    {A B : Type 0} (m : Check A) (f : A → Check B) (b : B)
    → m >>= f ≡ go_on b
    → (a : A) × ((m ≡ go_on a) × (f a ≡ go_on b))
bind-go_on (go_on a) f b h = (a, (refl, h))
bind-go_on (reject r) f b h = cc

pub reject_if-go_on :
    {B : Type 0} (t : Bool) (r : RejectionReason) (k : Check B) (b : B)
    → (reject_if t r >> k) ≡ go_on b
    → (t ≡ false) × (k ≡ go_on b)
reject_if-go_on true r k b h = cc
reject_if-go_on false r k b h = (refl, h)

pub Check-cases :
    {A : Type 0} (c : Check A)
    → ((a : A) × (c ≡ go_on a)) ⊎ ((r : RejectionReason) × (c ≡ reject r))
Check-cases (go_on a) = inl (a, refl)
Check-cases (reject r) = inr (r, refl)

pub needed-go_on : {A : Type 0} (o : Option A) (a : A) → needed o ≡ go_on a → o ≡ some a
needed-go_on none a h = cc
needed-go_on (some b) a h = cc

pub ℕ-split : (a b : ℕ) → a ≤ b → (a ≡ b) ⊎ (a + 1 ≤ b)
ℕ-split a b h = grind arith

pub or-false : (a b : Bool) → (a || b) ≡ false → (a ≡ false) × (b ≡ false)
or-false a b h = (ground arith, ground arith)

pub not-false : (b : Bool) → not b ≡ false → b ≡ true
not-false true h = refl
not-false false h = cc

pub ltb-false : (a b : ℕ) → ltb a b ≡ false → b ≤ a
ltb-false a b h = ground arith

pub go_on-inj : {A : Type 0} (a b : A) → go_on a ≡ go_on b → a ≡ b
go_on-inj a b h = cc

module _ {D : Type 0} where
  abbrev pub answer : Check (Signal D) → SignalResult D
  answer (go_on s) = signal s
  answer (reject reason) = refused reason

  pub answer-signal : (c : Check (Signal D)) (s : Signal D) → answer c ≡ signal s → c ≡ go_on s
  answer-signal (go_on s') s h = cc
  answer-signal (reject r) s h = cc

  -- The hours of the last candle, as each strategy's `check_trading_hours` tests them.
  unfoldable pub last_in_hours : NewYork → Clock → Clock → List (Candle D) → Check (Unit {0})
  last_in_hours ny start end candles = elim (get_last? candles) [
    | none ↦ reject RejectionReason.incomplete_setup
    | some last ↦
        if within_trading_window ny last.timestamp start end
        then go_on tt
        else reject RejectionReason.outside_trading_hours
  ]

  -- The last candle of the series lies within the window.
  abbrev pub LastWithin : NewYork → Clock → Clock → List (Candle D) → Type 0
  LastWithin ny start end candles =
      (c : Candle D) × ((get_last? candles ≡ some c)
        × (within_trading_window ny c.timestamp start end ≡ true))

  pub last_in_hours-LastWithin :
      (ny : NewYork) (start end : Clock) (candles : List (Candle D))
      → last_in_hours ny start end candles ≡ go_on tt
      → LastWithin ny start end candles
  unfolding last_in_hours
  last_in_hours-LastWithin ny start end candles h = elim (Option-cases (get_last? candles)) [
    | inl e ↦ cc (rw (e, last_in_hours) at h)
    | inr (c, e) ↦ (c, (e, ground (arith, rw (e, last_in_hours) at h)))
  ]

module _ {D : Type 0} ⦃d : Decimal D⦄ where
  pub lt-false : (a b : D) → lt a b ≡ false → b ≼ a
  lt-false a b h = ground arith

  -- The greatest high and the least low, nought where there is no candle.
  abbrev pub highest : List (Candle D) → D
  highest [] = d.nought
  highest (c ∷ cs) = foldl max c.high (map (λ e. e.high) cs)

  abbrev pub lowest : List (Candle D) → D
  lowest [] = d.nought
  lowest (c ∷ cs) = foldl min c.low (map (λ e. e.low) cs)

  -- A price so far against a direction, or with it.
  abbrev pub against : Direction → D → D → D
  against long price distance = price ⊖ distance
  against short price distance = price ⊕ distance

  abbrev pub in_favour : Direction → D → D → D
  in_favour long price distance = price ⊕ distance
  in_favour short price distance = price ⊖ distance

  abbrev pub percent_of : Option D → Option D
  percent_of none = none
  percent_of (some pct) = some (pct ⊘ d.of_ℕ 100)

  -- A signal that is accepted, with its prices and their ratio.
  abbrev pub accepted_signal :
      String → TimeFrame → Direction → EntryOrderType → Prices D → D → Option D → ℕ → Signal D
  accepted_signal symbol timeframe direction order_type p ratio risk_pct now = record {
    symbol = symbol;
    timeframe = timeframe;
    timestamp = now;
    direction = direction;
    status = SignalStatus.accepted;
    entry_order_type = order_type;
    entry_price = some p.entry;
    stop_price = some p.stop;
    target_price = some p.target;
    risk_reward_ratio = some ratio;
    risk_percent = percent_of risk_pct;
  }

  -- The prices of a signal are there, with at least that ratio.
  abbrev pub HasRatio : D → Signal D → Type 0
  HasRatio least s = (p : Prices D) × ((prices_of s ≡ go_on p) × (least ≼ risk_reward p))

  -- The prices of a signal are those.
  pub built-prices :
      (built s : Signal D) (p : Prices D)
      → prices_of built ≡ go_on p
      → go_on built ≡ go_on s
      → prices_of s ≡ go_on p
  built-prices built s p e h = sym (ap (λ c. c >>= prices_of) h) ∙ e
