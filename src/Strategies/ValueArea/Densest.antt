-- ===== src/Strategies/ValueArea/Densest.antt =====
-- What the choice of the densest band finds: `compute_value_area` of context.rs.
use daytradebot.Base.{
  ℕ, zero, suc, ◌+◌, ◌≤◌, ◌<◌, ◌≡◌, refl, subst, ◌∙◌, ◌&&◌, ◌||◌, List, [], ◌∷◌, length, drop, ltb,
  leb, ◌==◌, if◌then◌else◌, Bool-cases, inl, inr, arith, ◌/◌,
}
use daytradebot.Strategies.ValueArea.Profile.{sum, window, apart, pick_poc, find_poc}

pick_poc_lt :
    (n middle i poc best : ℕ) (counts : List ℕ)
    → poc < n
    → i + length counts ≤ n
    → pick_poc middle i poc best counts < n
unfolding pick_poc
pick_poc_lt n middle i poc best [] h k = h
pick_poc_lt n middle i poc best (c ∷ counts) h k =
    let closer = ltb best c || (c == best && ltb (apart i middle) (apart poc middle)) in
    pick_poc_lt n middle (i + 1) (if closer then i else poc) (if closer then c else best) counts
      (ground arith) (omega arith)

pub find_poc_lt : (counts : List ℕ) → 0 < length counts → find_poc counts < length counts
unfolding find_poc
find_poc_lt [] h = absurd (omega arith)
find_poc_lt (c ∷ counts) h =
    pick_poc_lt (suc (length counts)) _ 0 0 c (c ∷ counts) (omega arith) (omega arith)

-- The greatest of the counts.
unfoldable pub densest : List ℕ → ℕ
densest [] = 0
densest (c ∷ counts) = let rest = densest counts in if leb rest c then c else rest

abbrev greater : ℕ → ℕ → ℕ
greater a b = if leb b a then a else b

greater_assoc : (a b c : ℕ) → greater (greater a b) c ≡ greater a (greater b c)
greater_assoc a b c = ground arith

drop-next : (i c : ℕ) (xs ys : List ℕ) → drop i xs ≡ c ∷ ys → drop (suc i) xs ≡ ys
drop-next zero c [] ys h = cc
drop-next zero c (x ∷ xs) ys h = cc
drop-next (suc i) c [] ys h = cc
drop-next (suc i) c (x ∷ xs) ys h = drop-next i c xs ys h

window-first : (i c : ℕ) (xs ys : List ℕ) → drop i xs ≡ c ∷ ys → window i 1 xs ≡ c
unfolding sum
window-first i c xs ys h = rw h (omega arith)

-- Going over the counts from a band on, the choice has the greatest of the best so far and of these.
pick_poc-densest :
    (middle i poc best : ℕ) (all counts : List ℕ)
    → drop i all ≡ counts
    → window poc 1 all ≡ best
    → window (pick_poc middle i poc best counts) 1 all ≡ greater best (densest counts)
unfolding pick_poc densest
pick_poc-densest middle i poc best all [] here so_far = so_far ∙ ground arith
pick_poc-densest middle i poc best all (c ∷ counts) here so_far =
    let closer = ltb best c || (c == best && ltb (apart i middle) (apart poc middle)) in
    let poc' = if closer then i else poc in
    let best' = if closer then c else best in
    let first = window-first i c all counts here in
    let chosen : window poc' 1 all ≡ best' = elim (Bool-cases closer) [
      | inl e ↦ rw e first
      | inr e ↦ rw e so_far
    ] in
    let same : suc i ≡ i + 1 = omega arith in
    let next : drop (i + 1) all ≡ counts =
      subst (λ n. drop n all ≡ counts) same (drop-next i c all counts here) in
    pick_poc-densest middle (i + 1) poc' best' all counts next chosen ∙ ground arith

pub find_poc-densest :
    (counts : List ℕ) → 0 < length counts → window (find_poc counts) 1 counts ≡ densest counts
unfolding find_poc densest sum
find_poc-densest [] h = absurd (omega arith)
find_poc-densest (c ∷ counts) h =
    pick_poc-densest (length counts / 2) 0 0 c (c ∷ counts) (c ∷ counts) refl (omega arith)
    ∙ ground arith
