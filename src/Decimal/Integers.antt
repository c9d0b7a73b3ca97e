-- ===== src/Decimal/Integers.antt =====
-- Whole numbers as decimals: the instance at which the tests run, and which shows that the laws of
-- `IsOrdered`, `IsRounded` and `IsExact` can hold together.
use daytradebot.Base.{
  ◌≡◌, ℕ, suc, ◌+◌, ◌-◌, ◌*◌, ◌/◌, ◌≤◌, Bool, Option, none, some, arith, leb, if◌then◌else◌,
}
use daytradebot.Decimal.Defs.{Decimal, IsOrdered, IsRounded, IsExact}

-- `negsuc n` is -(n + 1).
pub data ℤ : Type 0 where
  pos : ℕ → ℤ
  negsuc : ℕ → ℤ

abbrev pub pos_part : ℤ → ℕ
pos_part (pos n) = n
pos_part (negsuc _) = 0

abbrev pub neg_part : ℤ → ℕ
neg_part (pos _) = 0
neg_part (negsuc n) = suc n

abbrev sub_ℕ : ℕ → ℕ → ℤ
sub_ℕ a b = if leb b a then pos (a - b) else negsuc (b - a - 1)

infixl 65 ◌+ℤ◌ ◌-ℤ◌
infixl 70 ◌*ℤ◌
abbrev pub ◌+ℤ◌ : ℤ → ℤ → ℤ
a +ℤ b = sub_ℕ (pos_part a + pos_part b) (neg_part a + neg_part b)

abbrev pub ◌-ℤ◌ : ℤ → ℤ → ℤ
a -ℤ b = sub_ℕ (pos_part a + neg_part b) (neg_part a + pos_part b)

abbrev pub ◌*ℤ◌ : ℤ → ℤ → ℤ
a *ℤ b =
    sub_ℕ (pos_part a * pos_part b + neg_part a * neg_part b)
      (pos_part a * neg_part b + neg_part a * pos_part b)

abbrev pub neg_ℤ : ℤ → ℤ
neg_ℤ a = sub_ℕ (neg_part a) (pos_part a)

abbrev pub abs_ℤ : ℤ → ℤ
abs_ℤ a = pos (pos_part a + neg_part a)

-- Division towards zero.
abbrev pub div_ℤ : ℤ → ℤ → ℤ
div_ℤ a b =
    let size = (pos_part a + neg_part a) / (pos_part b + neg_part b) in
    if leb (neg_part a) 0
    then (if leb (neg_part b) 0 then pos size else sub_ℕ 0 size)
    else (if leb (neg_part b) 0 then sub_ℕ 0 size else pos size)

abbrev pub leb_ℤ : ℤ → ℤ → Bool
leb_ℤ a b = leb (pos_part a + neg_part b) (pos_part b + neg_part a)

abbrev pub to_usize : ℤ → Option ℕ
to_usize (pos n) = some n
to_usize (negsuc n) = none

instance abbrev pub integers : Decimal ℤ
integers = record {
  nought = pos 0;
  unity = pos 1;
  add = ◌+ℤ◌;
  sub = ◌-ℤ◌;
  mul = ◌*ℤ◌;
  div = div_ℤ;
  neg = neg_ℤ;
  abs = abs_ℤ;
  trunc = λ a. a;
  round_cents = λ a. a;
  floor_usize = to_usize;
  ceil_usize = to_usize;
  of_ℕ = pos;
  le = leb_ℤ;
}

le-mul_of_pos : (a b : ℕ) → 1 ≤ b → a ≤ a * b
le-mul_of_pos a b h = grind arith

pub ℤ-IsOrdered : IsOrdered ℤ
ℤ-IsOrdered = record { le_total = λ a b. ground arith; le_trans = λ a b c p q. ground arith }

pub ℤ-IsRounded : IsRounded ℤ
ℤ-IsRounded = record {
  add_nonneg = λ a b p q. ground arith;
  add_pos = λ a b p q. ground arith;
  add_pos_right = λ a b p q. ground arith;
  le_add = λ a b h. ground arith;
  le_mul = λ a b p q. ground (arith, le-mul_of_pos (pos_part a) (pos_part b));
  div_le = λ a b p q. ground arith;
  sub_pos = λ a b h. ground arith;
  sub_le = λ a b h. ground arith;
  mul_nonneg = λ a b p q. ground arith;
}

-- A difference by its parts, and a whole number by the difference of its parts.
sub_ℕ-parts : (a b : ℕ) → pos_part (sub_ℕ a b) + b ≡ a + neg_part (sub_ℕ a b)
sub_ℕ-parts a b = ground arith

eq_of_parts : (x y : ℤ) → pos_part x + neg_part y ≡ pos_part y + neg_part x → x ≡ y
eq_of_parts x y h = ground arith

scaled : (k a b u v : ℕ) → u + b ≡ a + v → u * k + b * k ≡ a * k + v * k
scaled k a b u v h = let e : (u + b) * k ≡ (a + v) * k = rw h in omega (arith, e)

-- The parts of a difference times a number, from those of the two products.
parts-mul :
    (pa na pb nb pc nc pu nu pl nl pac nac pbc nbc pr nr : ℕ)
    → pu + (na + pb) ≡ pa + nb + nu
    → pl + (pu * nc + nu * pc) ≡ pu * pc + nu * nc + nl
    → pac + (pa * nc + na * pc) ≡ pa * pc + na * nc + nac
    → pbc + (pb * nc + nb * pc) ≡ pb * pc + nb * nc + nbc
    → pr + (nac + pbc) ≡ pac + nbc + nr
    → pl + nr ≡ pr + nl
parts-mul pa na pb nb pc nc pu nu pl nl pac nac pbc nbc pr nr u l ac bc r =
    omega (arith, scaled pc (pa + nb) (na + pb) pu nu u, scaled nc (pa + nb) (na + pb) pu nu u)

sub_mul_ℤ : (a b c : ℤ) → (a -ℤ b) *ℤ c ≡ (a *ℤ c) -ℤ (b *ℤ c)
sub_mul_ℤ a b c = eq_of_parts ((a -ℤ b) *ℤ c) ((a *ℤ c) -ℤ (b *ℤ c)) (
    parts-mul (pos_part a) (neg_part a) (pos_part b) (neg_part b) (pos_part c) (neg_part c)
      (pos_part (a -ℤ b)) (neg_part (a -ℤ b)) _ _ (pos_part (a *ℤ c)) (neg_part (a *ℤ c))
      (pos_part (b *ℤ c)) (neg_part (b *ℤ c)) _ _
      (sub_ℕ-parts (pos_part a + neg_part b) (neg_part a + pos_part b)) (sub_ℕ-parts _ _)
      (sub_ℕ-parts _ _) (sub_ℕ-parts _ _) (sub_ℕ-parts _ _))

pub ℤ-IsExact : IsExact ℤ
ℤ-IsExact = record {
  add_assoc = λ a b c. ground arith;
  add_comm = λ a b. ground arith;
  sub_eq = λ a b. ground arith;
  neg_add = λ a b. ground arith;
  neg_neg = λ a. ground arith;
  sub_mul = sub_mul_ℤ;
  mul_one = λ a. ground arith;
  mul_neg_one = λ a. ground arith;
}
