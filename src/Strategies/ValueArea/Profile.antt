-- ===== src/Strategies/ValueArea/Profile.antt =====
-- The value area of a day from the candles that touch each band of prices: `compute_value_area` of
-- context.rs. The bands are a list of counts, the lowest first.
use daytradebot.Base.{
  ℕ, zero, suc, ◌+◌, ◌-◌, ◌/◌, Bool, true, false, not, ◌&&◌, ◌||◌, Option, none, some, List, [],
  ◌∷◌, length, take, drop, map, foldl, leb, ltb, ◌==◌, if◌then◌else◌,
}
use daytradebot.Decimal.{Decimal, ◌⊕◌, ◌⊖◌, ◌⊗◌, ◌⊘◌, le, max, min}
use daytradebot.Domain.Market.{Candle}
use daytradebot.TradeTracker.{get_or}

pub record ValueArea (D : Type 0) : Type 0 where
  pub high : D
  pub low : D
  pub poc : D

abbrev pub min_ℕ : ℕ → ℕ → ℕ
min_ℕ a b = if leb a b then a else b

-- The sum of so many counts from an index on.
unfoldable pub sum : List ℕ → ℕ
sum [] = 0
sum (c ∷ cs) = c + sum cs

abbrev pub window : ℕ → ℕ → List ℕ → ℕ
window from len counts = sum (take len (drop from counts))

-- One more for each band between two, both included.
unfoldable pub stamp : ℕ → ℕ → ℕ → List ℕ → List ℕ
stamp i lo hi [] = []
stamp i lo hi (c ∷ counts) =
    (if leb lo i && leb i hi then c + 1 else c) ∷ stamp (i + 1) lo hi counts

unfoldable pub zeros : ℕ → List ℕ
zeros zero = []
zeros (suc n) = 0 ∷ zeros n

abbrev pub apart : ℕ → ℕ → ℕ
apart a b = (a - b) + (b - a)

-- The densest band so far, and its count; of two equal ones the one nearer to the middle.
unfoldable pub pick_poc : ℕ → ℕ → ℕ → ℕ → List ℕ → ℕ
pick_poc middle i poc best [] = poc
pick_poc middle i poc best (c ∷ counts) =
    let closer = ltb best c || (c == best && ltb (apart i middle) (apart poc middle)) in
    pick_poc middle (i + 1) (if closer then i else poc) (if closer then c else best) counts

-- The first count stands for `counts[poc]` with `poc = 0`.
unfoldable pub find_poc : List ℕ → ℕ
find_poc [] = 0
find_poc (c ∷ counts) = pick_poc (length counts / 2) 0 0 c (c ∷ counts)

pub record Reach : Type 0 where
  pub lo : ℕ
  pub hi : ℕ
  pub included : ℕ

-- One round of the expansion, by two bands to the denser side.
unfoldable pub widen : List ℕ → Reach → Reach
widen counts r =
    let last = length counts - 1 in
    let up = min_ℕ (r.hi + 2) last in
    let above = window (r.hi + 1) (up - r.hi) counts in
    let below = window (r.lo - 2) (r.lo - (r.lo - 2)) counts in
    if ltb r.hi last && (not (ltb 0 r.lo) || leb below above)
    then record { lo = r.lo; hi = up; included = r.included + above }
    else if ltb 0 r.lo
    then record { lo = r.lo - 2; hi = r.hi; included = r.included + below }
    else r

abbrev pub goes_on : List ℕ → ℕ → Reach → Bool
goes_on counts needed r = ltb r.included needed && (ltb 0 r.lo || ltb r.hi (length counts - 1))

-- The loop, on fuel.
unfoldable pub expand : ℕ → List ℕ → ℕ → Reach → Reach
expand zero counts needed r = r
expand (suc fuel) counts needed r = elim (goes_on counts needed r) [
  | true ↦ expand fuel counts needed (widen counts r)
  | false ↦ r
]

-- The bands from the densest one on; each round takes one band at least, so as many rounds as there
-- are bands are enough.
unfoldable pub reach_of : List ℕ → ℕ → Reach
reach_of counts needed =
    let poc = find_poc counts in
    expand (length counts) counts needed
      (record { lo = poc; hi = poc; included = window poc 1 counts })

module _ {D : Type 0} ⦃d : Decimal D⦄ where
  abbrev pub contains : ValueArea D → D → Bool
  contains va price = le va.low price && le price va.high

  unfoldable pub print_bands : (D → ℕ) → List (Candle D) → List ℕ → List ℕ
  print_bands bucket_of [] counts = counts
  print_bands bucket_of (c ∷ cs) counts =
      print_bands bucket_of cs (stamp 0 (bucket_of c.low) (bucket_of c.high) counts)

  abbrev pub bucket : D → D → ℕ → D → ℕ
  bucket day_low width n price =
      min_ℕ (get_or (d.floor_usize ((price ⊖ day_low) ⊘ width)) 0) (n - 1)

  -- The bands of a day and the share of them that is asked for, as prices.
  unfoldable pub area_of_bands : D → D → D → D → List ℕ → Option (ValueArea D)
  area_of_bands day_high day_low width va_percent counts =
      if sum counts == 0
      then none
      else (let needed =
            get_or (d.ceil_usize (d.of_ℕ (sum counts) ⊗ va_percent ⊘ d.of_ℕ 100)) (sum counts) in
          let r = reach_of counts needed in
          some (record {
            high = min (day_low ⊕ d.of_ℕ (r.hi + 1) ⊗ width) day_high;
            low = max (day_low ⊕ d.of_ℕ r.lo ⊗ width) day_low;
            poc = day_low ⊕ (d.of_ℕ (find_poc counts) ⊕ d.of_ℕ 5 ⊘ d.of_ℕ 10) ⊗ width;
          }))

  unfoldable pub compute_value_area : List (Candle D) → ℕ → D → D → Option (ValueArea D)
  compute_value_area [] buckets va_percent tick_size = none
  compute_value_area (c ∷ cs) buckets va_percent tick_size =
      let day_high = foldl max c.high (map (λ e. e.high) (c ∷ cs)) in
      let day_low = foldl min c.low (map (λ e. e.low) (c ∷ cs)) in
      let range = day_high ⊖ day_low in
      let width = max (range ⊘ d.of_ℕ buckets) tick_size in
      let bands = get_or (d.floor_usize (range ⊘ width)) 1 in
      let n = (if leb bands 1 then 1 else bands) + 1 in
      if buckets == 0 || le range d.nought
      then none
      else area_of_bands day_high day_low width va_percent
          (print_bands (bucket day_low width n) (c ∷ cs) (zeros n))
