-- ===== src/Risk/Liquidity.antt =====
-- The median notional of a bar: crates/trader-core/src/risk/liquidity.rs. `sort_unstable` of the
-- standard library is insertion into a sorted list.
use daytradebot.Base.{
  ℕ, zero, suc, ◌+◌, ◌-◌, ◌/◌, ◌%◌, ◌<◌, ◌≤◌, ◌≡◌, ◌↔◌, refl, ◌||◌, inl, inr, Bool-cases,
  length-map, Option, none, some, List, [], ◌∷◌, map, arith, ltb, ◌==◌, if◌then◌else◌, length,
  get_elem?, take_last, length-drop,
}
use daytradebot.Decimal.{Decimal, ◌⊕◌, ◌⊗◌, ◌⊘◌, le}
use daytradebot.Domain.Market.{Candle}

module _ {D : Type 0} ⦃d : Decimal D⦄ where
  unfoldable pub insert_sorted : D → List D → List D
  insert_sorted a [] = a ∷ []
  insert_sorted a (b ∷ bs) = if le a b then a ∷ b ∷ bs else b ∷ insert_sorted a bs

  unfoldable pub sort : List D → List D
  unfolding insert_sorted
  sort [] = []
  sort (a ∷ as') = insert_sorted a (sort as')

  abbrev pub notional : Candle D → D
  notional c = d.abs (c.close ⊗ c.volume)

  unfoldable pub middle : List D → ℕ → Option D
  middle valores n =
      if n % 2 == 1 then get_elem? valores (n / 2) else elim (get_elem? valores (n / 2 - 1)) [
        | none ↦ none
        | some a ↦ elim (get_elem? valores (n / 2)) [
          | none ↦ none
          | some b ↦ some ((a ⊕ b) ⊘ d.of_ℕ 2)
        ]
      ]

  unfoldable pub median_bar_notional : List (Candle D) → ℕ → Option D
  unfolding sort middle
  median_bar_notional candles lookback =
      if lookback == 0 || ltb (length candles) lookback
      then none
      else (let valores = sort (map notional (take_last lookback candles)) in
          middle valores (length valores))

  length-insert_sorted : (a : D) (bs : List D) → length (insert_sorted a bs) ≡ length bs + 1
  unfolding insert_sorted
  length-insert_sorted a [] = omega arith
  length-insert_sorted a (b ∷ bs) = ground (arith, length-insert_sorted a bs)

  length-sort : (xs : List D) → length (sort xs) ≡ length xs
  unfolding sort
  length-sort [] = refl
  length-sort (a ∷ as') = omega (arith, length-insert_sorted a (sort as'), length-sort as')

  get_elem?_inside : (xs : List D) (i : ℕ) → i < length xs → (a : D) × (get_elem? xs i ≡ some a)
  get_elem?_inside [] i h = absurd (omega arith)
  get_elem?_inside (x ∷ xs) zero h = (x, refl)
  get_elem?_inside (x ∷ xs) (suc i) h = get_elem?_inside xs i (omega arith)

  middle_total : (xs : List D) → 0 < length xs → (a : D) × (middle xs (length xs) ≡ some a)
  unfolding middle
  middle_total xs h =
      let n = length xs in
      let (b, eb) = get_elem?_inside xs (n / 2) (omega arith) in
      let (a, ea) = get_elem?_inside xs (n / 2 - 1) (omega arith) in
      elim (Bool-cases (n % 2 == 1)) [
        | inl odd ↦ (b, rw (odd, eb))
        | inr even ↦ ((a ⊕ b) ⊘ d.of_ℕ 2, rw (even, ea, eb))
      ]

  length-window :
      (cs : List (Candle D)) (n : ℕ)
      → n ≤ length cs
      → length (sort (map notional (take_last n cs))) ≡ n
  length-window cs n h = omega (
    arith,
    length-sort (map notional (take_last n cs)),
    length-map notional (take_last n cs),
    length-drop (length cs - n) cs,
  )

  -- The median is measured exactly when the window is not empty and fits into the buffer: a window
  -- that does not fit is never estimated from fewer bars.
  pub median_bar_notional_iff :
      (cs : List (Candle D)) (n : ℕ)
      → ((a : D) × (median_bar_notional cs n ≡ some a)) ↔ ((0 < n) × (n ≤ length cs))
  unfolding median_bar_notional
  median_bar_notional_iff cs n = (
    λ (a, e). ground arith,
    λ (pos, fits).
        let (a, e) =
          middle_total (sort (map notional (take_last n cs)))
            (omega (arith, length-window cs n fits)) in
        (a, ground (arith, e)),
  )
