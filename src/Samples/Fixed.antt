-- ===== src/Samples/Fixed.antt =====
-- Numbers with three decimals in place of `float`: a pair (p, n) stands for (p - n) / 1000, with p or
-- n zero.
use ml_monitor.Prelude.{
  ℕ, zero, suc, ◌+◌, ◌-◌, ◌*◌, ◌/◌, ◌≡◌, ap, Bool, true, false, List, [], ◌∷◌, length, ltb, leb,
  nat_beq, ◌&&◌, arith, if◌then◌else◌, Floats,
}

abbrev pub Fixed : Type 0
Fixed = ℕ × ℕ

abbrev pub quot : ℕ → ℕ → ℕ
quot zero c = 0
quot (suc a) c = if leb c 0 then 0 else suc a / c

abbrev pub difference : ℕ → ℕ → Fixed
difference p n = (p - n, n - p)

abbrev pub fixed_ratio : ℕ → ℕ → Fixed
fixed_ratio p q = (quot (p * 1000) q, 0)

abbrev pub fixed_add : Fixed → Fixed → Fixed
fixed_add (a, b) (c, d) = difference (a + c) (b + d)

abbrev pub fixed_sub : Fixed → Fixed → Fixed
fixed_sub (a, b) (c, d) = difference (a + d) (b + c)

abbrev pub fixed_mul : Fixed → Fixed → Fixed
fixed_mul (a, b) (c, d) = difference (quot (a * c + b * d) 1000) (quot (a * d + b * c) 1000)

abbrev pub fixed_div : Fixed → Fixed → Fixed
fixed_div (a, b) (c, zero) = (quot (a * 1000) c, quot (b * 1000) c)
fixed_div (a, b) (c, suc d) = (quot (b * 1000) (suc d), quot (a * 1000) (suc d))

abbrev pub fixed_lt : Fixed → Fixed → Bool
fixed_lt (a, b) (c, d) = ltb (a + d) (c + b)

abbrev pub fixed_le : Fixed → Fixed → Bool
fixed_le (a, b) (c, d) = leb (a + d) (c + b)

abbrev pub fixed_sum : List Fixed → Fixed
fixed_sum [] = (0, 0)
fixed_sum (x ∷ xs) = fixed_add x (fixed_sum xs)

abbrev pub fixed_mean : List Fixed → Fixed
fixed_mean xs = fixed_div (fixed_sum xs) (fixed_ratio (length xs) 1)

abbrev pub fixed : Floats
fixed = record {
  Float = Fixed;
  ratio = fixed_ratio;
  inf = (1_000_000_000, 0);
  add = fixed_add;
  sub = fixed_sub;
  mul = fixed_mul;
  div = fixed_div;
  lt = fixed_lt;
  le = fixed_le;
  feq = λ x y. nat_beq x.0 y.0 && nat_beq x.1 y.1;
  neg = λ x. (x.1, x.0);
  fabs = λ x. (x.0 + x.1, 0);
  round = λ x n. x;
  sqrt = λ x. x;
  log = λ x. x;
  fmean = fixed_mean;
  pstdev = λ xs. (0, 0);
}

cancel : (a b : ℕ) → a + b - (b + a) + (b + a - (a + b)) ≡ 0
cancel a b = omega arith

pub fixed_sub_self : (x : Fixed) → fixed.fabs (fixed.sub x x) ≡ fixed.ratio 0 1
fixed_sub_self (a, b) = ap (λ (n : ℕ). (n, 0)) (cancel a b)

pub fixed_lt-asym : (x y : Fixed) → fixed.lt x y ≡ true → fixed.lt y x ≡ false
fixed_lt-asym (a, b) (c, d) h = ground arith

pub fixed_bands :
    (x : Fixed) → fixed.le (fixed.ratio 3 10) x ≡ true → fixed.le (fixed.ratio 1 10) x ≡ true
fixed_bands (a, b) h = ground arith

pub fixed_bands' :
    (x : Fixed) → fixed.le (fixed.ratio 2 10) x ≡ true → fixed.le (fixed.ratio 1 10) x ≡ true
fixed_bands' (a, b) h = ground arith
