-- ===== src/Backtest/Drawdown.antt =====
-- What the metrics count, and what the greatest drawdown bounds.
use daytradebot.Base.{
  ℕ, ◌+◌, ◌≤◌, ◌≡◌, refl, ◌∙◌, ap, subst, Bool, List, [], ◌∷◌, ◌++◌, length, arith, if◌then◌else◌,
}
use daytradebot.Decimal.{Decimal, IsOrdered, ◌⊕◌, ◌⊖◌, ◌≼◌, lt, le_refl, le_of_lt}
use daytradebot.Session.{NewYork}
use daytradebot.Domain.Trades.{Trade}
use daytradebot.Backtest.Metrics.{
  Tally, new_tally, count_result, draw_down, group_trade, tally_trade, tally,
}
use daytradebot.Backtest.Summary.{summary, compute}

module _ {D : Type 0} ⦃d : Decimal D⦄ where
  -- After so many trades, each is a gain or a loss, and no streak of losses is longer than they are.
  abbrev IsCounted : ℕ → Tally D → Type 0
  IsCounted n y =
      (y.winning_trades + y.losing_trades ≡ n)
      × (y.current_consecutive_losses ≤ y.max_consecutive_losses)
      × (y.max_consecutive_losses ≤ y.losing_trades)

  -- The equity after trades, and after each of them.
  unfoldable pub equity_after : D → List (Trade D) → D
  equity_after capital [] = capital
  equity_after capital (t ∷ ts) = equity_after (capital ⊕ t.net_pnl) ts

  unfoldable pub equities : D → List (Trade D) → List D
  equities capital [] = []
  equities capital (t ∷ ts) = (capital ⊕ t.net_pnl) ∷ equities (capital ⊕ t.net_pnl) ts

  abbrev pub higher : D → D → D
  higher a b = if lt a b then b else a

  -- The greatest of values, the first one included.
  unfoldable pub peak_of : D → List D → D
  peak_of v [] = v
  peak_of v (w ∷ ws) = peak_of (higher v w) ws

  abbrev drawdown_of : Tally D → D
  drawdown_of y = y.peak ⊖ y.current_equity

  count_result-IsCounted :
      (n : ℕ) (t : Trade D) (y : Tally D) → IsCounted n y → IsCounted (n + 1) (count_result t y)
  unfolding count_result
  count_result-IsCounted n t y (total, streak, bound) = (ground arith, ground arith, ground arith)

  draw_down-IsCounted : (n : ℕ) (y : Tally D) → IsCounted n y → IsCounted n (draw_down y)
  unfolding draw_down
  draw_down-IsCounted n y h = (ground arith, ground arith, ground arith)

  draw_down_bounds :
      IsOrdered D → (y : Tally D) → drawdown_of (draw_down y) ≼ (draw_down y).max_drawdown
  unfolding draw_down
  draw_down_bounds laws y =
      let peak = if lt y.peak y.current_equity then y.current_equity else y.peak in
      ground (arith, le_refl laws (peak ⊖ y.current_equity))

  draw_down_grows : IsOrdered D → (y : Tally D) → y.max_drawdown ≼ (draw_down y).max_drawdown
  unfolding draw_down
  draw_down_grows laws y =
      let peak = if lt y.peak y.current_equity then y.current_equity else y.peak in
      ground
        (arith, le_refl laws y.max_drawdown, le_of_lt laws y.max_drawdown (peak ⊖ y.current_equity))

  module _ (ny : NewYork) (month_of : ℕ → ℕ) (forced : Trade D → Bool) where
    tally_trade-IsCounted :
        (n : ℕ) (y : Tally D) (t : Trade D)
        → IsCounted n y
        → IsCounted (n + 1) (tally_trade ny month_of forced y t)
    unfolding tally_trade group_trade
    tally_trade-IsCounted n y t h =
        let y' = group_trade ny month_of forced t y in
        draw_down-IsCounted (n + 1) (count_result t y') (count_result-IsCounted n t y' h)

    tally-IsCounted :
        (n : ℕ) (y : Tally D) (ts : List (Trade D))
        → IsCounted n y
        → IsCounted (n + length ts) (tally ny month_of forced y ts)
    unfolding tally
    tally-IsCounted n y [] h = subst (λ m. IsCounted m y) (omega arith) h
    tally-IsCounted n y (t ∷ ts) h =
        subst (λ m. IsCounted m (tally ny month_of forced (tally_trade ny month_of forced y t) ts))
          (omega arith)
          (tally-IsCounted (n + 1) (tally_trade ny month_of forced y t) ts
            (tally_trade-IsCounted n y t h))

    count_result-max_drawdown :
        (t : Trade D) (y : Tally D) → (count_result t y).max_drawdown ≡ y.max_drawdown
    unfolding count_result
    count_result-max_drawdown t y = ground arith

    tally_trade_grows :
        IsOrdered D
        → (y : Tally D) (t : Trade D)
        → y.max_drawdown ≼ (tally_trade ny month_of forced y t).max_drawdown
    unfolding tally_trade group_trade
    tally_trade_grows laws y t =
        let y' = group_trade ny month_of forced t y in
        subst (λ m. m ≼ (draw_down (count_result t y')).max_drawdown)
          (count_result-max_drawdown t y') (draw_down_grows laws (count_result t y'))

    tally_grows :
        IsOrdered D
        → (y : Tally D) (ts : List (Trade D))
        → y.max_drawdown ≼ (tally ny month_of forced y ts).max_drawdown
    unfolding tally
    tally_grows laws y [] = le_refl laws y.max_drawdown
    tally_grows laws y (t ∷ ts) =
        laws.le_trans _ _ _ (tally_trade_grows laws y t)
          (tally_grows laws (tally_trade ny month_of forced y t) ts)

    tally_bounds :
        IsOrdered D
        → (y : Tally D) (t : Trade D) (before after : List (Trade D))
        → drawdown_of (tally ny month_of forced y (t ∷ before))
          ≼ (tally ny month_of forced y (t ∷ before ++ after)).max_drawdown
    unfolding tally tally_trade
    tally_bounds laws y t [] after =
        let y' = count_result t (group_trade ny month_of forced t y) in
        laws.le_trans _ _ _ (draw_down_bounds laws y')
          (tally_grows laws (tally_trade ny month_of forced y t) after)
    tally_bounds laws y t (u ∷ before) after =
        tally_bounds laws (tally_trade ny month_of forced y t) u before after

    -- The peak and the equity of the tally are those of the trades.
    tally_trade_tracks :
        (y : Tally D) (t : Trade D)
        → ((tally_trade ny month_of forced y t).current_equity ≡ y.current_equity ⊕ t.net_pnl)
          × ((tally_trade ny month_of forced y t).peak
              ≡ higher y.peak (y.current_equity ⊕ t.net_pnl))
    unfolding tally_trade group_trade count_result draw_down
    tally_trade_tracks y t = (ground arith, ground arith)

    tally_tracks :
        (y : Tally D) (ts : List (Trade D))
        → ((tally ny month_of forced y ts).current_equity ≡ equity_after y.current_equity ts)
          × ((tally ny month_of forced y ts).peak ≡ peak_of y.peak (equities y.current_equity ts))
    unfolding tally equity_after equities peak_of
    tally_tracks y [] = (refl, refl)
    tally_tracks y (t ∷ ts) =
        let (equity, peak) = tally_trade_tracks y t in
        let (later, highest) = tally_tracks (tally_trade ny month_of forced y t) ts in
        (
          later ∙ ap (λ e. equity_after e ts) equity,
          highest
              ∙ ap (λ e. peak_of (tally_trade ny month_of forced y t).peak (equities e ts)) equity
              ∙ ap (λ p. peak_of p (equities (y.current_equity ⊕ t.net_pnl) ts)) peak,
        )

    drawdown_of-tally :
        (capital : D) (ts : List (Trade D))
        → drawdown_of (tally ny month_of forced (new_tally capital) ts)
          ≡ peak_of capital (equities capital ts) ⊖ equity_after capital ts
    drawdown_of-tally capital ts =
        let (equity, peak) = tally_tracks (new_tally capital) ts in cc (equity, peak)

    -- Where the numbers are ordered, the metrics of one or more trades have as many gains and losses as
    -- trades, no streak of losses longer than the losses, and a maximum drawdown that after each trade is
    -- no less than the peak less the equity: the equity is the capital and the net results so far, and
    -- the peak the greatest among the capital and the equities after each trade so far.
    pub compute-IsConsistent :
        IsOrdered D
        → (initial_capital : D) (t : Trade D) (before after : List (Trade D))
        → let m = compute ny month_of forced (t ∷ before ++ after) initial_capital in
          (m.tallied.winning_trades + m.tallied.losing_trades ≡ m.total_trades)
          × (m.tallied.max_consecutive_losses ≤ m.tallied.losing_trades)
          × (peak_of initial_capital (equities initial_capital (t ∷ before))
                ⊖ equity_after initial_capital (t ∷ before)
              ≼ m.tallied.max_drawdown)
    unfolding compute summary
    compute-IsConsistent laws initial_capital t before after =
        let start = new_tally initial_capital in
        let (total, streak, bound) =
          tally-IsCounted 0 start (t ∷ before ++ after) (refl, ground arith, ground arith) in
        let bounded = tally_bounds laws start t before after in
        (
          total ∙ omega arith,
          bound,
          subst (λ v. v ≼ (tally ny month_of forced start (t ∷ before ++ after)).max_drawdown)
              (drawdown_of-tally initial_capital (t ∷ before)) bounded,
        )
