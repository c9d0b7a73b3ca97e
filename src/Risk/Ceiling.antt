-- ===== src/Risk/Ceiling.antt =====
-- The ceiling of a position's notional is the least of the rules that are on.
use daytradebot.Base.{◌≡◌, refl, Option, none, some, inl, inr, Bool-cases}
use daytradebot.Decimal.{Decimal, ◌⊗◌, ◌⊘◌, le, ◌≼◌, IsOrdered, le_refl, le_of_lt}
use daytradebot.Risk.Config.{
  RiskConfig, TetoDeNotional, capital, absoluto, liquidez, cap_absoluto, cap_liquidez,
  capital_efetivo, teto_de_notional,
}

module _ {D : Type 0} ⦃d : Decimal D⦄ where
  abbrev pub capital_cap : RiskConfig D → D → D
  capital_cap cfg money = capital_efetivo cfg money ⊗ cfg.max_notional_multiple

  abbrev pub liquidity_cap : D → D → D
  liquidity_cap pct mediana = mediana ⊗ pct ⊘ d.of_ℕ 100

  -- The cap of the liquidity rule, where it is on and the median is known.
  abbrev pub liquidity_rule : Option D → Option D → Option D
  liquidity_rule none mediana = none
  liquidity_rule (some pct) none = none
  liquidity_rule (some pct) (some mediana) = some (liquidity_cap pct mediana)

  abbrev pub Bounds : D → Option D → Type 0
  Bounds teto none = Unit
  Bounds teto (some cap) = teto ≼ cap

  -- The ceiling is the cap of the rule that is named.
  abbrev pub IsSetBy : D → Option D → Option D → D × TetoDeNotional → Type 0
  IsSetBy cap usd liquid (teto, capital) = teto ≡ cap
  IsSetBy cap usd liquid (teto, absoluto) = usd ≡ some teto
  IsSetBy cap usd liquid (teto, liquidez) = liquid ≡ some teto

  abbrev pub IsCeiling : D → Option D → Option D → D × TetoDeNotional → Type 0
  IsCeiling cap usd liquid (teto, qual) =
      (teto ≼ cap) × Bounds teto usd × Bounds teto liquid × IsSetBy cap usd liquid (teto, qual)

  module _ (order : IsOrdered D) where
    open order use {le_trans}

    -- With the absolute rule alone.
    absoluto-IsCeiling :
        (cap : D) (usd : Option D) → IsCeiling cap usd none (cap_absoluto usd (cap, capital))
    unfolding cap_absoluto
    absoluto-IsCeiling cap none = (le_refl order cap, tt, tt, refl)
    absoluto-IsCeiling cap (some usd) = elim (Bool-cases (le cap usd)) [
      | inl h ↦ rw (h, Bounds) (le_refl order cap, h, tt, refl)
      | inr h ↦ rw (h, Bounds) (le_of_lt order usd cap h, le_refl order usd, tt, refl)
    ]

    lower-Bounds : (t b : D) (usd : Option D) → t ≼ b → Bounds b usd → Bounds t usd
    lower-Bounds t b none h k = tt
    lower-Bounds t b (some u) h k = le_trans t b u h k

    set_without :
        (cap : D) (usd : Option D) (l : D) (r : D × TetoDeNotional)
        → IsSetBy cap usd none r
        → IsSetBy cap usd (some l) r
    set_without cap usd l (teto, capital) h = h
    set_without cap usd l (teto, absoluto) h = h
    set_without cap usd l (teto, liquidez) h = cc

    liquidez-IsCeiling :
        (cap : D) (usd : Option D) (pct mediana : Option D) (r : D × TetoDeNotional)
        → IsCeiling cap usd none r
        → IsCeiling cap usd (liquidity_rule pct mediana) (cap_liquidez pct mediana r)
    unfolding cap_liquidez
    liquidez-IsCeiling cap usd none m r h = h
    liquidez-IsCeiling cap usd (some pct) none r h = h
    liquidez-IsCeiling cap usd (some pct) (some m) (teto, qual) (a, b, c, s) =
        let l = liquidity_cap pct m in
        elim (Bool-cases (le teto l)) [
          | inl h ↦ rw (h) (a, b, h, set_without cap usd l (teto, qual) s)
          | inr h ↦
              let under = le_of_lt order l teto h in
              rw (h) (
                le_trans l teto cap under a,
                lower-Bounds l teto usd under b,
                le_refl order l,
                refl,
              )
        ]

    -- The ceiling lies under the cap by capital, under the absolute one if it is set, and under the
    -- liquidity cap if that is on and the median known; and it is the cap of the rule it names.
    pub teto_de_notional-IsCeiling :
        (cfg : RiskConfig D) (money : D) (mediana : Option D)
        → IsCeiling
            (capital_cap cfg money)
            cfg.max_notional_usd
            (liquidity_rule cfg.max_pct_of_median_bar_notional mediana)
            (teto_de_notional cfg money mediana)
    unfolding teto_de_notional
    teto_de_notional-IsCeiling cfg money mediana =
        liquidez-IsCeiling (capital_cap cfg money) cfg.max_notional_usd
          cfg.max_pct_of_median_bar_notional mediana _
          (absoluto-IsCeiling (capital_cap cfg money) cfg.max_notional_usd)
