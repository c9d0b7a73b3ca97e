-- ===== src/Context.antt =====
-- The classification of the market: crates/trader-core/src/context/mod.rs.
pub mod Tradeable
use daytradebot.Base.{
  ℕ, ◌+◌, ◌*◌, ◌/◌, ◌%◌, String, Bool, true, false, not, ◌&&◌, Option, none, some, List, leb, ltb,
  if◌then◌else◌, get_last?,
}
use daytradebot.Decimal.{Decimal, ◌⊘◌, le, lt}
use daytradebot.Domain.Market.{
  TimeFrame, Candle, MarketContext, TrendState, VolatilityRegime, MarketPhase, uptrend, downtrend,
  neutral, high, normal, low, pre_market, regular, after_hours,
}
use daytradebot.Indicators.{sma, ema, atr_percent, relative_volume, range_percent}

pub record ContextAnalyzerConfig (D : Type 0) : Type 0 where
  pub ema_period : ℕ
  pub sma_period : ℕ
  pub atr_period : ℕ
  pub volume_period : ℕ
  pub high_volatility_threshold_pct : D
  pub low_volatility_threshold_pct : D

-- The minutes after midnight in UTC, and the phase: the regular hours from 13:30 to 21:00.
unfoldable pub classify_market_phase : ℕ → MarketPhase
classify_market_phase timestamp =
    let minutes = timestamp % 86_400 / 3600 * 60 + timestamp / 60 % 60 in
    if leb (13 * 60 + 30) minutes && leb minutes (21 * 60)
    then regular
    else if ltb minutes (13 * 60 + 30)
    then pre_market
    else after_hours

abbrev pub is_trending : TrendState → Bool
is_trending uptrend = true
is_trending downtrend = true
is_trending _ = false

abbrev pub is_high : VolatilityRegime → Bool
is_high high = true
is_high _ = false

abbrev pub is_regular : MarketPhase → Bool
is_regular regular = true
is_regular _ = false

module _ {D : Type 0} ⦃d : Decimal D⦄ where
  -- `ContextAnalyzerConfig::default`
  unfoldable pub default_config : ContextAnalyzerConfig D
  default_config = record {
    ema_period = 20;
    sma_period = 200;
    atr_period = 14;
    volume_period = 20;
    high_volatility_threshold_pct = d.of_ℕ 15 ⊘ d.of_ℕ 10;
    low_volatility_threshold_pct = d.of_ℕ 3 ⊘ d.of_ℕ 10;
  }

  unfoldable pub classify_trend : D → Option D → Option D → TrendState
  classify_trend close none sma_200 = neutral
  classify_trend close (some e) none =
      if lt e close then uptrend else if lt close e then downtrend else neutral
  classify_trend close (some e) (some s) =
      if lt e close && lt s e then uptrend else if lt close e && lt e s then downtrend else neutral

  unfoldable pub classify_volatility : Option D → D → D → VolatilityRegime
  classify_volatility none high_threshold low_threshold = VolatilityRegime.unknown
  classify_volatility (some atr) high_threshold low_threshold =
      if le high_threshold atr then high else if le atr low_threshold then low else normal

  -- The context at a last candle.
  abbrev pub last_context :
      ContextAnalyzerConfig D → String → TimeFrame → List (Candle D) → Candle D → MarketContext D
  last_context cfg symbol timeframe candles last =
      let ema_20 = ema candles cfg.ema_period in
      let sma_200 = sma candles cfg.sma_period in
      let atr_14 = atr_percent candles cfg.atr_period in
      let trend_state = classify_trend last.close ema_20 sma_200 in
      let volatility_regime =
        classify_volatility atr_14 cfg.high_volatility_threshold_pct
          cfg.low_volatility_threshold_pct in
      let market_phase = classify_market_phase last.timestamp in
      record {
        symbol = symbol;
        timeframe = timeframe;
        timestamp = last.timestamp;
        trend_state = trend_state;
        volatility_regime = volatility_regime;
        market_phase = market_phase;
        ema_20 = ema_20;
        ema_50 = ema candles 50;
        sma_200 = sma_200;
        atr_14 = atr_14;
        volume_relative = relative_volume candles cfg.volume_period;
        range_percent = range_percent candles;
        is_tradeable =
            is_trending trend_state && not (is_high volatility_regime) && is_regular market_phase;
      }

  -- `MarketContextAnalyzer::analyze`
  unfoldable pub analyze :
      ContextAnalyzerConfig D → String → TimeFrame → List (Candle D) → Option (MarketContext D)
  analyze cfg symbol timeframe candles = elim (get_last? candles) [
    | none ↦ none
    | some last ↦ some (last_context cfg symbol timeframe candles last)
  ]
