-- ===== src/Base/Radix.antt =====
-- Positional notation: the digits of a number in a base, the highest first, with no leading zero.
use go_hsql.Base.Tests.{◌==◌, if◌then◌else◌, Bool-cases}
use go_hsql.Base.Lists.{length, length-append, All, All-append, replicate}
use Prim.Native.Nat.{ℕ, zero, suc, ◌+◌, ◌*◌, ◌≤◌, ◌<◌, ◌/◌, ◌%◌, ◌^◌}
use mathlib.Core.Path.{◌≡◌, refl, ◌∙◌, sym}
use mathlib.Core.Logic.{◌≢◌, inl, inr}
use mathlib.Core.List.{List, [], ◌∷◌, ◌++◌}
use native.Mathlib.Omega.{arith}
use native.Mathlib.Nat.{div-add-mod, div-add-mod', mod-lt, pow-suc, pow-zero}

pub to_digits_fuel : ℕ → ℕ → ℕ → List ℕ
to_digits_fuel b zero n = []
to_digits_fuel b (suc f) n =
    let rest = to_digits_fuel b f (n / b) in if n == 0 then [] else rest ++ n % b ∷ []

-- A number is enough fuel for itself.
unfoldable pub to_digits : ℕ → ℕ → List ℕ
unfolding to_digits_fuel
to_digits b n = to_digits_fuel b n n

unfoldable pub of_digits_from : ℕ → ℕ → List ℕ → ℕ
of_digits_from b acc [] = acc
of_digits_from b acc (d ∷ ds) = of_digits_from b (acc * b + d) ds

unfoldable pub of_digits : ℕ → List ℕ → ℕ
unfolding of_digits_from
of_digits b ds = of_digits_from b 0 ds

pub of_digits_from-append :
    (b acc : ℕ) (xs ys : List ℕ)
    → of_digits_from b acc (xs ++ ys) ≡ of_digits_from b (of_digits_from b acc xs) ys
unfolding of_digits_from
of_digits_from-append b acc [] ys = refl
of_digits_from-append b acc (x ∷ xs) ys = of_digits_from-append b (acc * b + x) xs ys

quotient_fuel : (b f n : ℕ) → 2 ≤ b → n ≢ 0 → n ≤ suc f → n / b ≤ f
quotient_fuel b f n hb h0 h = grind (arith, div-add-mod n b)

-- One round of the loop: the quotient's digits, then the remainder.
of_digits_step :
    (b f n : ℕ)
    → of_digits_from b 0 (to_digits_fuel b f (n / b)) ≡ n / b
    → of_digits_from b 0 (to_digits_fuel b f (n / b) ++ n % b ∷ []) ≡ n
of_digits_step b f n h =
    of_digits_from-append b 0 (to_digits_fuel b f (n / b)) (n % b ∷ [])
    ∙ unfold of_digits_from in rw h (div-add-mod' n b)

of_digits-to_digits_fuel :
    (b f n : ℕ) → 2 ≤ b → n ≤ f → of_digits_from b 0 (to_digits_fuel b f n) ≡ n
unfolding to_digits_fuel
of_digits-to_digits_fuel b zero n hb h = unfold of_digits_from in omega arith
of_digits-to_digits_fuel b (suc f) n hb h = elim (Bool-cases (n == 0)) [
  | inl e ↦ rw e (unfold of_digits_from in ground arith)
  | inr e ↦ rw e (
      of_digits_step b f n
        (of_digits-to_digits_fuel b f (n / b) hb (quotient_fuel b f n hb (ground arith) h)))
]

-- Reading the digits of a number gives the number.
pub of_digits-to_digits : (b n : ℕ) → 2 ≤ b → of_digits b (to_digits b n) ≡ n
unfolding of_digits to_digits
of_digits-to_digits b n hb = of_digits-to_digits_fuel b n n hb (omega arith)

to_digits_fuel-bound : (b f n : ℕ) → 2 ≤ b → All (λ d. d < b) (to_digits_fuel b f n)
unfolding to_digits_fuel
to_digits_fuel-bound b zero n hb = tt
to_digits_fuel-bound b (suc f) n hb = elim (Bool-cases (n == 0)) [
  | inl e ↦ rw e tt
  | inr e ↦ rw e (
      All-append (λ d. d < b) (to_digits_fuel b f (n / b)) (n % b ∷ [])
        (to_digits_fuel-bound b f (n / b) hb) (mod-lt n (omega arith), tt))
]

-- Each digit is below the base.
pub to_digits_bound : (b n : ℕ) → 2 ≤ b → All (λ d. d < b) (to_digits b n)
unfolding to_digits
to_digits_bound b n hb = to_digits_fuel-bound b n n hb

-- An accumulator stands in front of the digits that follow.
pub of_digits_from-acc :
    (b acc : ℕ) (ds : List ℕ) → of_digits_from b acc ds ≡ acc * b ^ length ds + of_digits b ds
unfolding of_digits of_digits_from
of_digits_from-acc b acc [] = rw pow-zero (unfold of_digits of_digits_from in omega arith)
of_digits_from-acc b acc (d ∷ ds) =
    rw (of_digits_from-acc b (acc * b + d) ds, of_digits_from-acc b (0 * b + d) ds, pow-suc)
      (omega arith)

pub of_digits-cons :
    (b d : ℕ) (ds : List ℕ) → of_digits b (d ∷ ds) ≡ d * b ^ length ds + of_digits b ds
unfolding of_digits of_digits_from
of_digits-cons b d ds = rw (of_digits_from-acc b (0 * b + d) ds) (unfold of_digits in omega arith)

-- A leading zero changes nothing, and so do many.
pub of_digits-zeros : (b k : ℕ) (ds : List ℕ) → of_digits b (replicate k 0 ++ ds) ≡ of_digits b ds
of_digits-zeros b zero ds = refl
of_digits-zeros b (suc k) ds =
    of_digits-cons b 0 (replicate k 0 ++ ds) ∙ omega (arith, of_digits-zeros b k ds)

pub le-mul_of_lt : (d b p : ℕ) → d < b → suc d * p ≤ b * p
le-mul_of_lt d b p h = grind arith

pub digit_lt : (b d p r : ℕ) → d < b → r < p → d * p + r < p * b
digit_lt b d p r hd hr = grind (arith, le-mul_of_lt d b p hd)

-- The digits of k places write a number below b ^ k.
pub of_digits-lt : (b : ℕ) (ds : List ℕ) → All (λ d. d < b) ds → of_digits b ds < b ^ length ds
of_digits-lt b [] h = rw pow-zero (unfold of_digits of_digits_from in omega arith)
of_digits-lt b (d ∷ ds) h =
    rw (of_digits-cons b d ds, pow-suc)
      (digit_lt b d (b ^ length ds) (of_digits b ds) h.0 (of_digits-lt b ds h.1))

quotient_lt : (b n p : ℕ) → 2 ≤ b → n < p * b → n / b < p
quotient_lt b n p hb h = grind (arith, div-add-mod n b)

pow-zero_lt : (b n : ℕ) → n < b ^ 0 → n ≡ 0
pow-zero_lt b n h = let one : n < 1 = rw pow-zero at h in omega arith

to_digits_fuel-length :
    (b f n k : ℕ) → 2 ≤ b → n ≤ f → n < b ^ k → length (to_digits_fuel b f n) ≤ k
unfolding to_digits_fuel
to_digits_fuel-length b zero n k hb h hk = omega arith
to_digits_fuel-length b (suc f) n zero hb h hk = rw (pow-zero_lt b n hk) (omega arith)
to_digits_fuel-length b (suc f) n (suc j) hb h hk = elim (Bool-cases (n == 0)) [
  | inl e ↦ rw e (omega arith)
  | inr e ↦
      rw (e, length-append)
        (omega (
          arith,
          to_digits_fuel-length b f (n / b) j hb (quotient_fuel b f n hb (ground arith) h)
              (quotient_lt b n (b ^ j) hb (rw pow-suc at hk)),
        ))
]

-- A number below b ^ k has k digits at most.
pub length-to_digits : (b n k : ℕ) → 2 ≤ b → n < b ^ k → length (to_digits b n) ≤ k
unfolding to_digits
length-to_digits b n k hb h = to_digits_fuel-length b n n k hb (omega arith) h

nonempty_of_value : (b n : ℕ) (ds : List ℕ) → of_digits b ds ≡ n → n ≢ 0 → 0 < length ds
unfolding of_digits of_digits_from
nonempty_of_value b n [] e h = absurd (h (sym e))
nonempty_of_value b n (d ∷ ds) e h = omega arith

-- A number that is not zero has a digit.
pub to_digits_nonempty : (b n : ℕ) → 2 ≤ b → n ≢ 0 → 0 < length (to_digits b n)
to_digits_nonempty b n hb h = nonempty_of_value b n (to_digits b n) (of_digits-to_digits b n hb) h
