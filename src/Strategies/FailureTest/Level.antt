-- ===== src/Strategies/FailureTest/Level.antt =====
-- What holds of the level of support that is found.
use daytradebot.Base.{
  Bool-cases, ◌≡◌, refl, subst, Bool, true, List, [], ◌∷◌, length, map, foldl, leb, ltb, inl, inr,
}
use daytradebot.Decimal.{Decimal, le}
use daytradebot.Domain.Market.{Candle}
use daytradebot.Domain.Signals.{RejectionReason}
use daytradebot.Risk.{go_on}
use daytradebot.Strategies.Checks.{reject_if-go_on, go_on-inj}
use daytradebot.Strategies.FailureTest.Params.{FailureParameters}
use daytradebot.Strategies.FailureTest.Support.{
  SupportLevel, keep, level_at, candidates, is_tested, is_intact, is_aged, better_of, best_of,
  find_support_level,
}

-- A property of every member.
abbrev pub All : {A : Type 0} → (A → Type 0) → List A → Type 0
All P [] = Unit {0}
All P (x ∷ xs) = P x × All P xs

keep-All :
    {A : Type 0} (P : A → Type 0) (p : A → Bool) (xs : List A)
    → All P xs
    → All (λ x. P x × (p x ≡ true)) (keep p xs)
unfolding keep
keep-All P p [] h = tt
keep-All P p (x ∷ xs) (px, pxs) = elim (Bool-cases (p x)) [
  | inl e ↦ rw e ((px, e), keep-All P p xs pxs)
  | inr e ↦ rw e (keep-All P p xs pxs)
]

map-All :
    {A B : Type 0} (P : B → Type 0) (f : A → B) (xs : List A)
    → ((x : A) → P (f x))
    → All P (map f xs)
map-All P f [] h = tt
map-All P f (x ∷ xs) h = (h x, map-All P f xs h)

-- A fold that picks one of two at each step picks a member.
foldl-All :
    {A : Type 0} (P : A → Type 0) (pick : A → A → A) (x : A) (xs : List A)
    → ((a b : A) → P a → P b → P (pick a b))
    → P x
    → All P xs
    → P (foldl pick x xs)
foldl-All P pick x [] choice px h = px
foldl-All P pick x (y ∷ ys) choice px (py, pys) =
    foldl-All P pick (pick x y) ys choice (choice x y px py) pys

module _ {D : Type 0} ⦃d : Decimal D⦄ where
  better_of-either :
      (P : SupportLevel D → Type 0) (a b : SupportLevel D) → P a → P b → P (better_of a b)
  better_of-either P a b pa pb = elim (Bool-cases (ltb b.touches a.touches)) [
    | inl e ↦ rw e pa
    | inr e ↦ elim (Bool-cases (ltb a.touches b.touches)) [
      | inl f ↦ rw (e, f) pb
      | inr f ↦ elim (Bool-cases (le a.price b.price)) [
        | inl g ↦ rw (e, f, g) pb
        | inr g ↦ rw (e, f, g) pa
      ]
    ]
  ]

  best_of-All :
      (P : SupportLevel D → Type 0) (ls : List (SupportLevel D)) (reason : RejectionReason)
      (l : SupportLevel D)
      → All P ls
      → best_of ls reason ≡ go_on l
      → P l
  best_of-All P [] reason l h e = cc
  best_of-All P (a ∷ as') reason l (pa, pas) e =
      subst P (go_on-inj (foldl better_of a as') l e)
        (foldl-All P better_of a as' (better_of-either P) pa pas)

  -- The level is the one of its price, has touches enough, no close under it, and is old enough.
  abbrev pub IsSupport : List (Candle D) → FailureParameters D → SupportLevel D → Type 0
  IsSupport candles params l =
      (((l ≡ level_at candles params l.price) × (is_tested params l ≡ true))
        × (is_intact candles params l ≡ true))
      × (is_aged candles params l ≡ true)

  -- A level of support that is found is what counting its touches at its price gives; it was touched
  -- often enough, no candle of the window closed under it by more than the tolerance, and its first
  -- touch is old enough.
  pub find_support_level-IsSupport :
      (candles : List (Candle D)) (params : FailureParameters D) (l : SupportLevel D)
      → find_support_level candles params ≡ go_on l
      → IsSupport candles params l
  unfolding find_support_level
  find_support_level-IsSupport candles params l h =
      let found = candidates candles params in
      let much_tested = keep (is_tested params) found in
      let intact = keep (is_intact candles params) much_tested in
      let aged = keep (is_aged candles params) intact in
      let (e0, h0) =
        reject_if-go_on (leb (length found) 0) RejectionReason.support_level_not_found _ l h in
      let (e1, h1) =
        reject_if-go_on (leb (length much_tested) 0) RejectionReason.support_not_tested_enough _ l
          h0 in
      let (e2, h2) =
        reject_if-go_on (leb (length intact) 0) RejectionReason.support_already_broken
          (best_of aged RejectionReason.level_too_recent) l h1 in
      let own =
        map-All (λ x. x ≡ level_at candles params x.price) (level_at candles params) _
          (λ p. refl) in
      best_of-All (IsSupport candles params) aged RejectionReason.level_too_recent l
        (keep-All _ (is_aged candles params) intact (
          keep-All _ (is_intact candles params) much_tested
            (keep-All _ (is_tested params) found own)))
        h2
