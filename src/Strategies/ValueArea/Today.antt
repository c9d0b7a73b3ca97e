-- ===== src/Strategies/ValueArea/Today.antt =====
-- Where today starts in a series: `current_day_start` of context.rs.
use daytradebot.Base.{
  ℕ, zero, suc, ◌+◌, ◌-◌, ◌≤◌, ◌≡◌, ◌≢◌, refl, subst, ap, ◌∙◌, true, false, some, List, [], ◌∷◌,
  length, get_elem?, reverse, ◌==◌, Bool-cases, ◌⊎◌, inl, inr, arith,
}
use mathlib.Core.List.{reverse_aux, reverse-reverse}
use daytradebot.Decimal.{Decimal}
use daytradebot.Session.{NewYork, et_date}
use daytradebot.Domain.Market.{Candle}
use daytradebot.Strategies.ValueArea.Days.{same_day, first_day, current_day_start}

module _ {A : Type 0} where
  get_elem?-reverse_aux_rest :
      (xs r : List A) (i n : ℕ) → n ≡ length xs + i → get_elem? (reverse_aux xs r) n ≡ get_elem? r i
  get_elem?-reverse_aux_rest [] r i n h = let same : n ≡ i = omega arith in rw same refl
  get_elem?-reverse_aux_rest (x ∷ xs) r i n h =
      get_elem?-reverse_aux_rest xs (x ∷ r) (suc i) n (omega arith)

  get_elem?-reverse_aux :
      (xs r : List A) (j n : ℕ)
      → length xs ≡ suc (n + j)
      → get_elem? (reverse_aux xs r) n ≡ get_elem? xs j
  get_elem?-reverse_aux [] r j n h = absurd (omega arith)
  get_elem?-reverse_aux (x ∷ xs) r zero n h =
      get_elem?-reverse_aux_rest xs (x ∷ r) 0 n (omega arith)
  get_elem?-reverse_aux (x ∷ xs) r (suc j) n h = get_elem?-reverse_aux xs (x ∷ r) j n (omega arith)

  -- The elements of a list stand in its reverse from the other end.
  get_elem?-reverse :
      (xs : List A) (j n : ℕ)
      → length (reverse xs) ≡ suc (n + j)
      → get_elem? xs n ≡ get_elem? (reverse xs) j
  get_elem?-reverse xs j n h =
      subst (λ ys. get_elem? ys n ≡ get_elem? (reverse xs) j) (reverse-reverse xs)
        (get_elem?-reverse_aux (reverse xs) [] j n h)

  length-reverse_aux : (xs r : List A) → length (reverse_aux xs r) ≡ length xs + length r
  length-reverse_aux [] r = omega arith
  length-reverse_aux (x ∷ xs) r = omega (arith, length-reverse_aux xs (x ∷ r))

  List-cases : (xs : List A) → (xs ≡ []) ⊎ ((x : A) × ((ys : List A) × (xs ≡ x ∷ ys)))
  List-cases [] = inl refl
  List-cases (x ∷ xs) = inr (x, (xs, refl))

  never_empty :
      (xs : List A) (x : A) (n : ℕ) → reverse xs ≡ [] → get_elem? xs n ≡ some x → false ≡ true
  never_empty [] x n e h = cc
  never_empty (y ∷ ys) x n e h = absurd (omega (arith, length-reverse_aux (y ∷ ys) [], ap length e))

zero_or_suc : (n : ℕ) → (n ≡ 0) ⊎ (1 ≤ n)
zero_or_suc zero = inl refl
zero_or_suc (suc n) = inr (omega arith)

module _ {D : Type 0} ⦃d : Decimal D⦄ (ny : NewYork) where
  abbrev date_of : Candle D → ℕ
  date_of c = et_date ny c.timestamp

  -- Going back from a candle of a day, the last one of the run is of that day.
  same_day_last :
      (day : ℕ) (c : Candle D) (older : List (Candle D))
      → date_of c ≡ day
      → (first : Candle D) × ((get_elem? (c ∷ older) (same_day ny day older) ≡ some first)
          × (date_of first ≡ day))
  unfolding same_day
  same_day_last day c [] h = (c, (refl, h))
  same_day_last day c (x ∷ xs) h = elim (Bool-cases (date_of x == day)) [
    | inl e ↦
        let (first, (at, same)) = same_day_last day x xs (ground arith) in
        let next : suc (same_day ny day xs) ≡ same_day ny day xs + 1 = omega arith in
        rw e (first, (subst (λ n. get_elem? (c ∷ x ∷ xs) n ≡ some first) next at, same))
    | inr e ↦ rw e (c, (refl, h))
  ]

  -- The one before the run is of another day, or there is none.
  same_day_stops :
      (day : ℕ) (older : List (Candle D))
      → (length older ≡ same_day ny day older)
        ⊎ ((before : Candle D) × ((get_elem? older (same_day ny day older) ≡ some before)
              × (date_of before ≢ day)))
  unfolding same_day
  same_day_stops day [] = inl refl
  same_day_stops day (x ∷ xs) = elim (Bool-cases (date_of x == day)) [
    | inl e ↦
        let next : suc (same_day ny day xs) ≡ same_day ny day xs + 1 = omega arith in
        elim (same_day_stops day xs) [
          | inl all ↦ inl (rw e (omega arith))
          | inr (before, (at, other)) ↦
              inr (rw e (before, (subst (λ n. get_elem? (x ∷ xs) n ≡ some before) next at, other)))
        ]
    | inr e ↦ inr (rw e (x, (refl, λ same. ground arith)))
  ]

  same_day_fits : (day : ℕ) (older : List (Candle D)) → same_day ny day older ≤ length older
  unfolding same_day
  same_day_fits day [] = omega arith
  same_day_fits day (x ∷ xs) = ground (arith, same_day_fits day xs)

  -- The first candle of the last one's day: it is of that day, and the one before it, if there is
  -- one, is not.
  abbrev pub StartsDay : List (Candle D) → ℕ → Candle D → Type 0
  StartsDay candles start first =
      (get_elem? candles start ≡ some first)
      × ((last : Candle D) × ((get_elem? candles (length candles - 1) ≡ some last)
            × (date_of first ≡ date_of last)
            × ((start ≡ 0)
                ⊎ ((before : Candle D) × ((get_elem? candles (start - 1) ≡ some before)
                      × (date_of before ≢ date_of last))))))

  reverse-StartsDay :
      (candles : List (Candle D)) (c : Candle D) (older : List (Candle D)) (start : ℕ)
      → reverse candles ≡ c ∷ older
      → start ≡ length candles - suc (same_day ny (date_of c) older)
      → (first : Candle D) × StartsDay candles start first
  reverse-StartsDay candles c older start back e =
      let day = date_of c in
      let k = same_day ny day older in
      let whole : length candles ≡ suc (length older) =
        omega (arith, length-reverse_aux candles [], ap length back) in
      let fits = same_day_fits day older in
      let at_back : (j n : ℕ)
          → length candles ≡ suc (n + j)
          → get_elem? candles n ≡ get_elem? (c ∷ older) j =
        λ j n h.
          subst (λ ys. get_elem? candles n ≡ get_elem? ys j) back
            (get_elem?-reverse candles j n (omega (arith, length-reverse_aux candles []))) in
      let (first, (at, same)) = same_day_last day c older refl in
      let before =
        elim (zero_or_suc start)
          as (λ z.
            (start ≡ 0)
            ⊎ ((b : Candle D) × ((get_elem? candles (start - 1) ≡ some b) × (date_of b ≢ day)))) [
              | inl z ↦ inl z
              | inr more ↦ elim (same_day_stops day older) [
                | inl all ↦ absurd (omega arith)
                | inr (b, (there, other)) ↦
                    inr (b, (at_back (suc k) (start - 1) (omega arith) ∙ there, other))
              ]
            ] in
      (
        first,
        (
          at_back k start (omega arith) ∙ at,
          (c, (at_back 0 (length candles - 1) (omega arith), same, before)),
        ),
      )

  -- The index that the source takes for the start of today is where the last candle's day starts.
  pub current_day_start-StartsDay :
      (candles : List (Candle D)) (first : Candle D)
      → get_elem? candles (current_day_start ny candles) ≡ some first
      → StartsDay candles (current_day_start ny candles) first
  unfolding current_day_start
  current_day_start-StartsDay candles first at = elim (List-cases (reverse candles)) [
    | inl e ↦ cc (never_empty candles first (length candles - first_day ny (reverse candles)) e at)
    | inr (c, (older, e)) ↦
        let start = length candles - first_day ny (reverse candles) in
        let (found, (there, rest)) =
          reverse-StartsDay candles c older start e
            (ap (λ ys. length candles - first_day ny ys) e) in
        let same : found ≡ first = cc (there, at) in
        subst (StartsDay candles start) same (there, rest)
  ]
