-- ===== src/Tests/Market.antt =====
-- The session, the indicators and the market's context on concrete inputs.
use daytradebot.Base.{◌+◌, ◌≡◌, refl, true, none, some, get_last?}
use daytradebot.Decimal.Integers.{ℤ, pos, integers}
use daytradebot.Domain.Market.{
  Candle, MarketContext, uptrend, low, m5, h1, from_str, as_str, from_str-as_str, regular,
}
use daytradebot.Session.{Clock}
use daytradebot.Indicators.{ema, sma, atr_percent, atr, relative_volume, range_percent, range_sum}
use daytradebot.Context.{
  ContextAnalyzerConfig, analyze, classify_market_phase, classify_trend, classify_volatility,
}
use daytradebot.Context.Tradeable.{analyze-IsTradeable, IsTradeable}
use daytradebot.Tests.{ten, series}

abbrev nine_thirty : Clock
nine_thirty = record { hour = 9; minute = 30; second = 0 }

abbrev four : Clock
four = record { hour = 16; minute = 0; second = 0 }

from_str-as_str_example : from_str (as_str h1) ≡ some h1
from_str-as_str_example = from_str-as_str h1

abbrev pub analyzer_config : ContextAnalyzerConfig ℤ
analyzer_config = record {
  ema_period = 2;
  sma_period = 200;
  atr_period = 1;
  volume_period = 2;
  high_volatility_threshold_pct = pos 15;
  low_volatility_threshold_pct = pos 1;
}

abbrev seen : MarketContext ℤ
seen = record {
  symbol = "X";
  timeframe = m5;
  timestamp = ten + 300;
  trend_state = uptrend;
  volatility_regime = low;
  market_phase = regular;
  ema_20 = some (pos 100);
  ema_50 = none;
  sma_200 = none;
  atr_14 = some (pos 0);
  volume_relative = some (pos 1);
  range_percent = some (pos 0);
  is_tradeable = true;
}

is_seen : analyze analyzer_config "X" m5 series ≡ some seen
unfolding analyze classify_trend classify_volatility classify_market_phase ema sma atr atr_percent
    relative_volume range_percent range_sum
is_seen = refl

analyze-IsTradeable_example :
    (last : Candle ℤ) × ((get_last? series ≡ some last)
      × IsTradeable analyzer_config series seen last)
analyze-IsTradeable_example = analyze-IsTradeable analyzer_config "X" m5 series is_seen refl
