-- ===== src/Session.antt =====
-- The trading session in New York time: crates/trader-core/src/session.rs, with the gap count of
-- data_quality.rs. `chrono-tz` is a parameter: the wall clock of New York at an instant, in seconds
-- counted like the instant itself.
use daytradebot.Base.{
  ℕ, ◌+◌, ◌-◌, ◌*◌, ◌/◌, ◌%◌, ◌≤◌, ◌≡◌, ◌↔◌, refl, Bool, true, ◌&&◌, List, [], ◌∷◌, arith, ltb, leb,
  ◌==◌, if◌then◌else◌,
}
use daytradebot.Domain.Market.{Candle, TimeFrame, duration}

abbrev pub NewYork : Type 0
NewYork = ℕ → ℕ

-- `et_time`, in seconds after midnight, and `et_date`, as a day number.
unfoldable pub et_time : NewYork → ℕ → ℕ
et_time ny ts = ny ts % 86_400

unfoldable pub et_date : NewYork → ℕ → ℕ
et_date ny ts = ny ts / 86_400

-- The date in UTC, `date_naive()`.
unfoldable pub utc_date : ℕ → ℕ
utc_date ts = ts / 86_400

-- An hour, a minute and a second.
pub record Clock : Type 0 where
  pub hour : ℕ
  pub minute : ℕ
  pub second : ℕ

abbrev pub seconds : Clock → ℕ
seconds c = c.hour * 3600 + c.minute * 60 + c.second

abbrev pub clock_of : ℕ → Clock
clock_of t = record { hour = t / 3600; minute = t / 60 % 60; second = t % 60 }

unfoldable pub within_trading_window : NewYork → ℕ → Clock → Clock → Bool
unfolding et_time
within_trading_window ny ts start end =
    let current = seconds (clock_of (et_time ny ts)) in
    leb (seconds start) current && leb current (seconds end)

-- An instant is within the window exactly when the seconds of its New York day lie between the two
-- clocks, both ends included: the split into hour, minute and second loses nothing.
pub within_trading_window_iff :
    (ny : NewYork) (ts : ℕ) (start end : Clock)
    → (within_trading_window ny ts start end ≡ true)
      ↔ ((seconds start ≤ et_time ny ts) × (et_time ny ts ≤ seconds end))
unfolding within_trading_window
within_trading_window_iff ny ts start end = (λ h. ground arith, λ h. ground arith)

-- Two instants fall into the window together or not at all when their New York clocks agree,
-- whatever their offsets from UTC.
pub within_trading_window_dst :
    (ny : NewYork) (summer winter : ℕ) (start end : Clock)
    → ny summer % 86_400 ≡ ny winter % 86_400
    → within_trading_window ny summer start end ≡ within_trading_window ny winter start end
unfolding within_trading_window
within_trading_window_dst ny summer winter start end h = rw h

-- `count_gaps`: neighbours on one UTC day that lie more than two timeframes apart.
module _ {D : Type 0} where
  is_gap : TimeFrame → Candle D → Candle D → Bool
  unfolding utc_date
  is_gap tf a b =
      utc_date a.timestamp == utc_date b.timestamp
      && ltb (duration tf * 2) (b.timestamp - a.timestamp)

  unfoldable pub count_gaps : List (Candle D) → TimeFrame → ℕ
  unfolding is_gap
  count_gaps [] tf = 0
  count_gaps (a ∷ []) tf = 0
  count_gaps (a ∷ b ∷ rest) tf = (if is_gap tf a b then 1 else 0) + count_gaps (b ∷ rest) tf

  -- Neighbours that are no more than two timeframes apart.
  abbrev pub IsContiguous : TimeFrame → List (Candle D) → Type 0
  IsContiguous tf [] = Unit
  IsContiguous tf (a ∷ []) = Unit
  IsContiguous tf (a ∷ b ∷ rest) =
      (b.timestamp ≤ a.timestamp + duration tf * 2) × IsContiguous tf (b ∷ rest)

  -- A series whose neighbours are never more than two timeframes apart has no gap.
  pub count_gaps-IsContiguous :
      (tf : TimeFrame) (cs : List (Candle D)) → IsContiguous tf cs → count_gaps cs tf ≡ 0
  unfolding count_gaps
  count_gaps-IsContiguous tf [] h = refl
  count_gaps-IsContiguous tf (a ∷ []) h = refl
  count_gaps-IsContiguous tf (a ∷ b ∷ rest) h =
      ground (arith, count_gaps-IsContiguous tf (b ∷ rest) h.1)
