-- ===== src/Live/Exposure.antt =====
-- The limits of the whole account: `portfolio_limit_hit`, `exposure_limit_hit` and `pct_to_fraction`.
-- A percentage of the settings is what `Decimal::from_f64_retain` makes of it, if anything.
use daytradebot.Base.{
  ℕ, ◌<◌, ◌≡◌, ◌↔◌, Bool, Option, none, some, List, [], ◌∷◌, map, foldl, arith, leb, if◌then◌else◌,
  length, inl, inr, Option-cases,
}
use daytradebot.Decimal.{Decimal, ◌⊕◌, ◌⊗◌, ◌⊘◌, le, lt, ◌≼◌, ◌≺◌}
use daytradebot.Domain.Trades.{Position, Trade}

pub data ExposureLimit : Type 0 where
  too_many_positions notional_reached notional_exceeded : ExposureLimit

pub data PortfolioLimit : Type 0 where
  exposure : ExposureLimit → PortfolioLimit
  no_database daily_loss query_failed : PortfolioLimit

-- What the repository knows of the day: no repository, a failed query, or the trades of the account,
-- each with its mark as an artefact of latency, which the json journal holds.
pub data DayTrades (D : Type 0) : Type 0 where
  without_database failed : DayTrades D
  listed : List (Trade D × Bool) → DayTrades D

module _ {D : Type 0} ⦃d : Decimal D⦄ where
  unfoldable pub pct_to_fraction : Option D → D
  pct_to_fraction none = d.nought
  pct_to_fraction (some pct) = pct ⊘ d.of_ℕ 100

  abbrev pub sum : List D → D
  sum = foldl (λ a b. a ⊕ b) d.nought

  abbrev pub aggregate : List (Position D) → D
  aggregate positions = sum (map (λ p. d.abs (p.avg_entry_price ⊗ p.quantity)) positions)

  -- `exposure_limit_hit`; the last argument is the notional of the position to be opened.
  unfoldable pub exposure_limit_hit :
      List (Position D) → D → ℕ → Option D → D → Option ExposureLimit
  exposure_limit_hit positions equity max_positions max_pct prospective =
      let cap = equity ⊗ pct_to_fraction max_pct in
      if leb max_positions (length positions)
      then some too_many_positions
      else if le equity d.nought
      then none
      else if le cap (aggregate positions)
      then some notional_reached
      else if lt cap (aggregate positions ⊕ prospective)
      then some notional_exceeded
      else none

  -- The results of the trades that are not marked.
  unfoldable pub counted : List (Trade D × Bool) → List D
  counted [] = []
  counted ((t, marked) ∷ ts) = let rest = counted ts in if marked then rest else t.net_pnl ∷ rest

  unfoldable pub daily_loss_hit : D → Option D → DayTrades D → Option PortfolioLimit
  daily_loss_hit equity max_loss_pct without_database = some no_database
  daily_loss_hit equity max_loss_pct failed = some query_failed
  daily_loss_hit equity max_loss_pct (listed trades) =
      if le (sum (counted trades)) (d.neg (equity ⊗ pct_to_fraction max_loss_pct))
      then some daily_loss
      else none

  unfoldable pub portfolio_limit_hit :
      List (Position D) → D → DayTrades D → ℕ → Option D → Option D → D → Option PortfolioLimit
  portfolio_limit_hit positions equity trades max_positions max_pct max_loss_pct prospective =
      elim (exposure_limit_hit positions equity max_positions max_pct prospective) [
        | some limit ↦ some (exposure limit)
        | none ↦ daily_loss_hit equity max_loss_pct trades
      ]

  -- The day's loss is known from the database and has not reached its limit.
  abbrev pub LossIsLeft : D → Option D → DayTrades D → Type 0
  LossIsLeft equity max_loss_pct without_database = ⊥
  LossIsLeft equity max_loss_pct failed = ⊥
  LossIsLeft equity max_loss_pct (listed trades) =
      d.neg (equity ⊗ pct_to_fraction max_loss_pct) ≺ sum (counted trades)

  daily_loss_hit_iff :
      (equity : D) (max_loss_pct : Option D) (trades : DayTrades D)
      → (daily_loss_hit equity max_loss_pct trades ≡ none) ↔ LossIsLeft equity max_loss_pct trades
  unfolding daily_loss_hit
  daily_loss_hit_iff equity pct without_database = (λ h. cc, λ h. absurd h)
  daily_loss_hit_iff equity pct failed = (λ h. cc, λ h. absurd h)
  daily_loss_hit_iff equity pct (listed trades) = (λ h. ground arith, λ h. ground arith)

  exposure_limit_hit_iff :
      (positions : List (Position D)) (equity : D) (max_positions : ℕ) (max_pct : Option D)
      (prospective : D)
      → d.nought ≺ equity
      → (exposure_limit_hit positions equity max_positions max_pct prospective ≡ none) ↔ (
          (length positions < max_positions)
          × (aggregate positions ≺ equity ⊗ pct_to_fraction max_pct)
          × (aggregate positions ⊕ prospective ≼ equity ⊗ pct_to_fraction max_pct))
  unfolding exposure_limit_hit
  exposure_limit_hit_iff positions equity n pct prospective pos =
      (λ h. (ground arith, ground arith, ground arith), λ h. ground arith)

  -- With a positive equity, the account lets an entry pass exactly when fewer positions than the
  -- limit are open, their aggregate notional is under its cap and stays within it with the new
  -- position at its ceiling, and the loss of the day is known from the database and not reached.
  pub portfolio_limit_hit_iff :
      (positions : List (Position D)) (equity : D) (trades : DayTrades D) (max_positions : ℕ)
      (max_pct max_loss_pct : Option D) (prospective : D)
      → d.nought ≺ equity
      → (portfolio_limit_hit positions equity trades max_positions max_pct max_loss_pct prospective
          ≡ none)
        ↔ ((length positions < max_positions)
            × (aggregate positions ≺ equity ⊗ pct_to_fraction max_pct)
            × (aggregate positions ⊕ prospective ≼ equity ⊗ pct_to_fraction max_pct)
            × LossIsLeft equity max_loss_pct trades)
  unfolding portfolio_limit_hit
  portfolio_limit_hit_iff positions equity trades n pct loss prospective pos =
      let (open', shut) = exposure_limit_hit_iff positions equity n pct prospective pos in
      let (left', spent) = daily_loss_hit_iff equity loss trades in
      elim (Option-cases (exposure_limit_hit positions equity n pct prospective)) [
        | inl free ↦
            let (a, b, c) = open' free in
            rw (free, portfolio_limit_hit) (λ h. (a, b, c, left' h), λ h. spent h.3)
        | inr (limit, hit) ↦ rw (hit, portfolio_limit_hit) (λ h. cc, λ h. cc (shut (h.0, h.1, h.2)))
      ]
