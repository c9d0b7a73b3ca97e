-- ===== src/Domain/Market.antt =====
-- Candles, quotes and market context: crates/trader-domain/src/entities.rs and context.rs.
-- An instant of `DateTime<Utc>` is its count of seconds since the Unix epoch. Json snapshots and
-- the `vwap`, `source` and `is_complete` marks, which no modelled code reads, are left out.
use text.Mathlib.Text.{◌==◌ as str_eq}
use daytradebot.Base.{ℕ, ◌*◌, String, Bool, ◌||◌, ◌≡◌, refl, Option, none, some, if◌then◌else◌}
use daytradebot.Decimal.{Decimal, ◌⊕◌, ◌⊖◌, ◌⊗◌, ◌⊘◌, le, lt, is_zero}

pub data TimeFrame : Type 0 where
  m1 m5 m15 m30 h1 h4 d1 : TimeFrame

-- `TimeFrame::as_str`
pub as_str : TimeFrame → String
as_str m1 = "1m"
as_str m5 = "5m"
as_str m15 = "15m"
as_str m30 = "30m"
as_str h1 = "1h"
as_str h4 = "4h"
as_str d1 = "1d"

-- The duration in seconds.
unfoldable pub duration : TimeFrame → ℕ
duration m1 = 60
duration m5 = 5 * 60
duration m15 = 15 * 60
duration m30 = 30 * 60
duration h1 = 3600
duration h4 = 4 * 3600
duration d1 = 86_400

-- `FromStr for TimeFrame`; `none` is `InvalidTimeFrame`.
pub from_str : String → Option TimeFrame
from_str s =
    if str_eq s "1m"
    then some m1
    else if str_eq s "5m"
    then some m5
    else if str_eq s "15m"
    then some m15
    else if str_eq s "30m"
    then some m30
    else if str_eq s "1h"
    then some h1
    else if str_eq s "4h"
    then some h4
    else if str_eq s "1d"
    then some d1
    else none

-- A timeframe is read back from its text.
pub from_str-as_str : (t : TimeFrame) → from_str (as_str t) ≡ some t
unfolding from_str as_str
from_str-as_str m1 = refl
from_str-as_str m5 = refl
from_str-as_str m15 = refl
from_str-as_str m30 = refl
from_str-as_str h1 = refl
from_str-as_str h4 = refl
from_str-as_str d1 = refl

pub record Candle (D : Type 0) : Type 0 where
  pub symbol : String
  pub timeframe : TimeFrame
  pub timestamp : ℕ
  pub «open» : D
  pub high : D
  pub low : D
  pub close : D
  pub volume : D

pub record Quote (D : Type 0) : Type 0 where
  pub symbol : String
  pub bid : D
  pub ask : D
  pub timestamp : ℕ

pub data TrendState : Type 0 where
  uptrend downtrend neutral unknown : TrendState

pub data VolatilityRegime : Type 0 where
  high normal low unknown : VolatilityRegime

pub data MarketPhase : Type 0 where
  pre_market regular after_hours unknown : MarketPhase

pub record MarketContext (D : Type 0) : Type 0 where
  pub symbol : String
  pub timeframe : TimeFrame
  pub timestamp : ℕ
  pub trend_state : TrendState
  pub volatility_regime : VolatilityRegime
  pub market_phase : MarketPhase
  pub ema_20 : Option D
  pub ema_50 : Option D
  pub sma_200 : Option D
  pub atr_14 : Option D
  pub volume_relative : Option D
  pub range_percent : Option D
  pub is_tradeable : Bool

module _ {D : Type 0} ⦃d : Decimal D⦄ where
  -- `Candle::new`; `none` is `InvalidCandle`.
  unfoldable pub new_candle : String → TimeFrame → ℕ → D → D → D → D → D → Option (Candle D)
  new_candle symbol timeframe timestamp opening top bottom close volume =
      if lt top bottom
      then none
      else if lt top opening || lt top close || lt opening bottom || lt close bottom
      then none
      else some (record {
        symbol = symbol;
        timeframe = timeframe;
        timestamp = timestamp;
        «open» = opening;
        high = top;
        low = bottom;
        close = close;
        volume = volume;
      })

  -- `Candle::range`, `Candle::is_degenerate`, `Candle::body`
  abbrev pub range : Candle D → D
  range c = c.high ⊖ c.low

  unfoldable pub is_degenerate : Candle D → Bool
  is_degenerate c = le c.high c.low

  abbrev pub body : Candle D → D
  body c = d.abs (c.close ⊖ c.«open»)

  unfoldable pub is_bullish : Candle D → Bool
  is_bullish c = le c.«open» c.close

  unfoldable pub is_bearish : Candle D → Bool
  is_bearish c = lt c.close c.«open»

  -- `Quote::spread_pct`
  unfoldable pub spread_pct : Quote D → D
  spread_pct q =
      let mid = (q.bid ⊕ q.ask) ⊘ d.of_ℕ 2 in
      if is_zero mid then d.nought else ((q.ask ⊖ q.bid) ⊘ mid) ⊗ d.of_ℕ 100
