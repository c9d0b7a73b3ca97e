-- ===== src/Strategies/ValueArea/Coverage.antt =====
-- What the expansion from the densest band reaches.
use daytradebot.Base.{
  ℕ, zero, suc, ◌+◌, ◌-◌, ◌≤◌, ◌<◌, ◌≡◌, refl, ap, subst, true, false, List, [], ◌∷◌, length, take,
  drop, ltb, Bool-cases, ◌⊎◌, inl, inr, arith,
}
use daytradebot.Strategies.ValueArea.Densest.{densest, find_poc_lt, find_poc-densest}
use daytradebot.Strategies.ValueArea.Profile.{
  sum, window, min_ℕ, find_poc, Reach, widen, goes_on, expand, reach_of,
}

sum-take-nil : (n : ℕ) → sum (take n []) ≡ 0
unfolding sum
sum-take-nil zero = refl
sum-take-nil (suc n) = refl

sum-take-split :
    (a b n : ℕ) (xs : List ℕ)
    → n ≡ a + b
    → sum (take n xs) ≡ sum (take a xs) + sum (take b (drop a xs))
unfolding sum
sum-take-split zero b n xs h = let same : n ≡ b = omega arith in rw same (omega arith)
sum-take-split (suc a) b zero xs h = absurd (omega arith)
sum-take-split (suc a) b (suc n) [] h = omega (arith, sum-take-nil b)
sum-take-split (suc a) b (suc n) (x ∷ xs) h = omega (arith, sum-take-split a b n xs (omega arith))

drop-drop : (a b n : ℕ) (xs : List ℕ) → n ≡ a + b → drop b (drop a xs) ≡ drop n xs
drop-drop zero b n xs h = ap (λ m. drop m xs) (omega arith)
drop-drop (suc a) b zero xs h = absurd (omega arith)
drop-drop (suc a) zero (suc n) [] h = refl
drop-drop (suc a) (suc b) (suc n) [] h = refl
drop-drop (suc a) b (suc n) (x ∷ xs) h = drop-drop a b n xs (omega arith)

-- A window is two windows beside each other.
window-split :
    (from a b n mid : ℕ) (counts : List ℕ)
    → n ≡ a + b
    → mid ≡ from + a
    → window from n counts ≡ window from a counts + window mid b counts
window-split from a b n mid counts h e =
    subst (λ ys. window from n counts ≡ window from a counts + sum (take b ys))
      (drop-drop from a mid counts e) (sum-take-split a b n (drop from counts) h)

-- The bands around `poc` with the sum of their counts.
abbrev IsReach : List ℕ → ℕ → Reach → Type 0
IsReach counts poc r =
    (r.lo ≤ poc)
    × (poc ≤ r.hi)
    × (r.hi < length counts)
    × (r.included ≡ window r.lo (r.hi + 1 - r.lo) counts)

widen-IsReach :
    (counts : List ℕ) (poc : ℕ) (r : Reach)
    → IsReach counts poc r
    → IsReach counts poc (widen counts r)
unfolding widen
widen-IsReach counts poc r (low, high, inside, total) =
    let last = length counts - 1 in
    let up = min_ℕ (r.hi + 2) last in
    let grown = window-split r.lo (r.hi + 1 - r.lo) (up - r.hi) (up + 1 - r.lo) (r.hi + 1) counts in
    let sunk =
      window-split (r.lo - 2) (r.lo - (r.lo - 2)) (r.hi + 1 - r.lo) (r.hi + 1 - (r.lo - 2)) r.lo
        counts in
    (ground arith, ground arith, ground arith, ground (arith, grown, sunk))

abbrev left_over : List ℕ → Reach → ℕ
left_over counts r = (length counts - 1 - r.hi) + r.lo

widen_shrinks :
    (counts : List ℕ) (needed n : ℕ) (r : Reach)
    → r.hi < length counts
    → goes_on counts needed r ≡ true
    → left_over counts r ≤ suc n
    → left_over counts (widen counts r) ≤ n
unfolding widen
widen_shrinks counts needed n r h go bound = ground arith

expand-IsReach :
    (fuel : ℕ) (counts : List ℕ) (poc needed : ℕ) (r : Reach)
    → IsReach counts poc r
    → left_over counts r ≤ fuel
    → IsReach counts poc (expand fuel counts needed r)
      × (goes_on counts needed (expand fuel counts needed r) ≡ false)
unfolding expand
expand-IsReach zero counts poc needed r h bound = (h, ground arith)
expand-IsReach (suc fuel) counts poc needed r h bound =
    elim (Bool-cases (goes_on counts needed r)) [
      | inl go ↦
          rw (go, expand)
            (expand-IsReach fuel counts poc needed (widen counts r) (widen-IsReach counts poc r h)
              (widen_shrinks counts needed fuel r h.2 go bound))
      | inr stop ↦ rw (stop, expand) (h, stop)
    ]

window-one : (poc : ℕ) (counts : List ℕ) → window poc 1 counts ≡ window poc (poc + 1 - poc) counts
window-one poc counts =
    let e : ◌≡◌ {A = ℕ} 1 (poc + 1 - poc) = omega arith in ap (λ n. window poc n counts) e

-- A loop that has ended without enough has taken in every band.
ended_enough :
    (counts : List ℕ) (poc needed : ℕ) (r : Reach)
    → IsReach counts poc r
    → goes_on counts needed r ≡ false
    → (needed ≤ window r.lo (r.hi + 1 - r.lo) counts) ⊎ ((r.lo ≡ 0) × (r.hi + 1 ≡ length counts))
ended_enough counts poc needed r (low, high, inside, total) ended =
    elim (Bool-cases (ltb r.included needed)) [
      | inr enough ↦ inl (ground arith)
      | inl short_of ↦ inr (ground arith, ground arith)
    ]

-- In a profile of one band or more, the band that the area starts from has the greatest of the
-- counts. The loop comes to an end within as many rounds as there are bands, with bands of the
-- profile that have that band among them; together these have the counts that are asked for, or
-- they are all the bands of the profile.
pub reach_of-covers :
    (counts : List ℕ) (needed : ℕ)
    → 0 < length counts
    → let r = reach_of counts needed in
      (window (find_poc counts) 1 counts ≡ densest counts)
      × (goes_on counts needed r ≡ false)
      × (r.lo ≤ find_poc counts)
      × (find_poc counts ≤ r.hi)
      × (r.hi < length counts)
      × ((needed ≤ window r.lo (r.hi + 1 - r.lo) counts)
          ⊎ ((r.lo ≡ 0) × (r.hi + 1 ≡ length counts)))
unfolding reach_of
reach_of-covers counts needed some_band =
    let poc = find_poc counts in
    let start : Reach = record { lo = poc; hi = poc; included = window poc 1 counts } in
    let inside = find_poc_lt counts some_band in
    let (reached, ended) =
      expand-IsReach (length counts) counts poc needed start
        (omega arith, omega arith, inside, window-one poc counts) (omega arith) in
    (
      find_poc-densest counts some_band,
      ended,
      reached.0,
      reached.1,
      reached.2,
      ended_enough counts poc needed (expand (length counts) counts needed start) reached ended,
    )
