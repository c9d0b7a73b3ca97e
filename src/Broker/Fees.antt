-- ===== src/Broker/Fees.antt =====
-- What the costs of the simulated broker are worth: the commission's bounds, and the side of slippage.
use daytradebot.Base.{true, false, arith, inl, inr, Bool-cases}
use daytradebot.Decimal.{
  Decimal, ◌⊗◌, ◌≼◌, ◌≺◌, IsOrdered, IsRounded, min-le_right, min, is_zero, le_of_lt, le_refl,
  le-max_right,
}
use daytradebot.Domain.Signals.{long, short}
use daytradebot.Broker.{per_share, for_execution, charge, apply_slippage}

module _ {D : Type 0} ⦃d : Decimal D⦄ (order : IsOrdered D) where
  le-min : (a b c : D) → c ≼ a → c ≼ b → c ≼ min a b
  le-min a b c p q = ground arith

  charge-le_cap :
      (each least pct quantity price : D)
      → d.nought ≺ d.abs price ⊗ d.abs quantity ⊗ pct
      → charge (per_share each least pct) quantity price ≼ d.abs price ⊗ d.abs quantity ⊗ pct
  unfolding charge
  charge-le_cap each least pct quantity price h = rw h (min-le_right order _ _)

  charge-nonneg :
      (each least pct quantity price : D)
      → d.nought ≼ least
      → d.nought ≼ charge (per_share each least pct) quantity price
  unfolding charge
  charge-nonneg each least pct quantity price h =
      let raw = order.le_trans _ _ _ h (le-max_right order (each ⊗ d.abs quantity) least) in
      elim (Bool-cases (d.le (d.abs price ⊗ d.abs quantity ⊗ pct) d.nought)) [
        | inl free ↦ rw free raw
        | inr capped ↦ rw capped (le-min _ _ _ raw (le_of_lt order _ _ capped))
      ]

  -- A commission by share whose floor is not negative and whose cap, a fraction of the value traded,
  -- is positive lies between nought and that cap, whatever the quantity, also when the floor is above
  -- the cap.
  pub for_execution-bounds :
      (each least pct quantity price : D)
      → d.nought ≼ least
      → d.nought ≺ d.abs price ⊗ d.abs quantity ⊗ pct
      → (d.nought ≼ for_execution (per_share each least pct) quantity price)
        × (for_execution (per_share each least pct) quantity price
            ≼ d.abs price ⊗ d.abs quantity ⊗ pct)
  unfolding for_execution
  for_execution-bounds each least pct quantity price h p =
      let low = charge-nonneg each least pct quantity price h in
      let top = charge-le_cap each least pct quantity price p in
      elim (Bool-cases (is_zero quantity)) [
        | inl idle ↦ rw idle (le_refl order d.nought, le_of_lt order _ _ p)
        | inr some ↦ rw some (low, top)
      ]

  -- With a price and a slippage that are not negative, slippage is against the trader on each of the
  -- four executions: a long enters at the price or above and leaves at it or below, and a short enters
  -- at the price or below and leaves at it or above.
  pub apply_slippage-adverse :
      (rounds : IsRounded D) (price slippage : D)
      → d.nought ≼ price
      → d.nought ≼ slippage
      → (price ≼ apply_slippage price long true slippage)
        × (apply_slippage price long false slippage ≼ price)
        × (apply_slippage price short true slippage ≼ price)
        × (price ≼ apply_slippage price short false slippage)
  unfolding apply_slippage
  apply_slippage-adverse rounds price slippage p s =
      let more = rounds.le_mul _ _ p (rounds.le_add d.unity slippage s) in
      let less = rounds.div_le _ _ p (rounds.le_add d.unity slippage s) in (more, less, less, more)
