-- ===== src/Proto/BigInt/RoundTrip.antt =====
-- What bigIntToTwosComplement writes, twosComplementToBigInt reads.
use go_hsql.Base.{
  ℕ, zero, suc, ◌-◌, ◌*◌, ◌^◌, ◌≤◌, ◌<◌, ◌≡◌, refl, sym, ap, ◌∙◌, inl, inr, true, false, [], ◌∷◌,
  arith, leb, ◌==◌, if◌then◌else◌, ==_iff, Bool-cases, length, length-append, All, All-append,
  replicate, length-replicate,
}
use go_hsql.Base.Int.{ℤ, pos, negsuc, sub_ℕ}
use go_hsql.Base.Words.{Bytes}
use go_hsql.Base.Radix.{
  to_digits, of_digits, of_digits-to_digits, of_digits-cons, of_digits-lt, of_digits-zeros,
  to_digits_bound, length-to_digits, le-mul_of_lt,
}
use go_hsql.Proto.BigInt.{
  big_int_to_twos_complement, twos_complement_to_big_int, magnitude_bytes, negative_length,
  left_pad, top_bit,
}

abbrev AreBytes : Bytes → Type 0
AreBytes = All (λ d. d < 256)

-- The reading of a byte string whose first byte decides the sign.
read_positive :
    (b : Bytes) → (top_bit b ≡ false) → twos_complement_to_big_int b ≡ pos (of_digits 256 b)
unfolding twos_complement_to_big_int of_digits
read_positive [] h = refl
read_positive (c ∷ b) h = rw h

read_negative :
    (b : Bytes)
    → top_bit b ≡ true
    → twos_complement_to_big_int b ≡ sub_ℕ (of_digits 256 b) (256 ^ length b)
unfolding twos_complement_to_big_int
read_negative [] h = cc
read_negative (c ∷ b) h = rw h

value_of_bytes : (n : ℕ) → of_digits 256 (to_digits 256 n) ≡ n
value_of_bytes n = of_digits-to_digits 256 n (omega arith)

All-zeros : (n : ℕ) → AreBytes (replicate n 0)
All-zeros zero = tt
All-zeros (suc n) = (omega arith, All-zeros n)

-- A string that begins with c < 128 is worth less than 128 units of its first place.
lower_half :
    (c : ℕ) (b : Bytes) → AreBytes (c ∷ b) → c < 128 → of_digits 256 (c ∷ b) < 128 * 256 ^ length b
lower_half c b h lt =
    omega (
      arith,
      of_digits-cons 256 c b,
      of_digits-lt 256 b h.1,
      le-mul_of_lt c 128 (256 ^ length b) lt,
    )

-- A value in the upper half of k + 1 bytes has its top bit set.
top_bit_of_value :
    (b : Bytes) (k : ℕ)
    → AreBytes b
    → length b ≡ suc k
    → 128 * 256 ^ k ≤ of_digits 256 b
    → top_bit b ≡ true
top_bit_of_value [] k h e le = absurd (omega arith)
top_bit_of_value (c ∷ b) k h e le = elim (Bool-cases (leb 128 c)) [
  | inl t ↦ t
  | inr f ↦
      let size : length b ≡ k = omega arith in
      absurd (omega (arith, rw size at (lower_half c b h (ground arith))))
]

-- The bytes written for a negative number of this magnitude hold it with the sign bit set.
negative_room :
    (mag : Bytes) (m : ℕ)
    → AreBytes mag
    → of_digits 256 mag ≡ suc m
    → (k : ℕ) × (negative_length mag ≡ suc k) × (suc m ≤ 128 * 256 ^ k)
unfolding negative_length
negative_room [] m h e = absurd (unfold of_digits in cc)
negative_room (c ∷ mag) m h e = elim (Bool-cases (leb 128 c)) [
  | inl t ↦ (suc (length mag), rw t (omega arith), omega (arith, e, of_digits-lt 256 (c ∷ mag) h))
  | inr f ↦ (length mag, rw f, omega (arith, e, lower_half c mag h (ground arith)))
]

-- Reading the padded bytes of a value in the upper half of k + 1 bytes.
read_left_pad :
    (k tc : ℕ)
    → 128 * 256 ^ k ≤ tc
    → tc < 256 ^ suc k
    → twos_complement_to_big_int (left_pad (suc k) (to_digits 256 tc)) ≡ sub_ℕ tc (256 ^ suc k)
unfolding left_pad
read_left_pad k tc lo hi =
    rw (read_negative out (top_bit_of_value out k bytes size (omega (arith, value))))
      (rw (value, size))
  where
    out : Bytes
    out = left_pad (suc k) (to_digits 256 tc)

    value : of_digits 256 out ≡ tc
    value = of_digits-zeros 256 _ (to_digits 256 tc) ∙ value_of_bytes tc

    size : length out ≡ suc k
    size =
        rw (length-append, length-replicate)
          (omega (arith, length-to_digits 256 tc (suc k) (omega arith) hi))

    bytes : AreBytes out
    bytes =
        All-append _ (replicate _ 0) (to_digits 256 tc) (All-zeros _)
          (to_digits_bound 256 tc (omega arith))

of_digits_zero : of_digits 256 (0 ∷ []) ≡ 0
unfolding of_digits
of_digits_zero = refl

read_sub : (n p : ℕ) → suc n ≤ p → sub_ℕ (p - suc n) p ≡ negsuc n
read_sub n p h = ground arith

read_magnitude :
    (n : ℕ) (mag : Bytes)
    → of_digits 256 mag ≡ n
    → twos_complement_to_big_int (if top_bit mag then 0 ∷ mag else mag) ≡ pos n
read_magnitude n mag e = elim (Bool-cases (top_bit mag)) [
  | inl t ↦ rw t (read_positive (0 ∷ mag) refl ∙ ap pos (of_digits-zeros 256 1 mag ∙ e))
  | inr f ↦ rw f (read_positive mag f ∙ ap pos e)
]

-- Reading what was written for any integer gives that integer.
pub twos_complement_to_big_int-big_int_to_twos_complement :
    (v : ℤ) → twos_complement_to_big_int (big_int_to_twos_complement v) ≡ v
unfolding big_int_to_twos_complement
twos_complement_to_big_int-big_int_to_twos_complement (pos n) = elim (Bool-cases (n == 0)) [
  | inl z ↦ rw z (read_positive (0 ∷ []) refl ∙ ap pos (of_digits_zero ∙ sym ((==_iff n 0).0 z)))
  | inr z ↦ rw z (read_magnitude n (magnitude_bytes n) (value_of_bytes n))
]
twos_complement_to_big_int-big_int_to_twos_complement (negsuc n) =
    let (k, size, room) =
      negative_room (to_digits 256 (suc n)) n (to_digits_bound 256 (suc n) (omega arith))
        (value_of_bytes (suc n)) in
    rw size (
      read_left_pad k (256 ^ suc k - suc n) (omega arith) (omega arith)
      ∙ read_sub n (256 ^ suc k) (omega arith))
