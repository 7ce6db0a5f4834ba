-- ===== src/Proto/Frame/RoundTrip.antt =====
-- Reading the frames that were written, and the ways that a read fails.
use go_hsql.Base.{
  ℕ, ◌+◌, ◌-◌, ◌^◌, ◌<◌, ◌≡◌, refl, ◌≢◌, ◌⊎◌, inl, inr, false, [], ◌∷◌, ◌++◌, append_assoc,
  append-nil, arith, ltb, ◌==◌, ltb-false, Bool-cases, length, length-append, take-append,
  drop-append, take-append_le, drop-append_le,
}
use go_hsql.Base.Int.{ℤ, pos, negsuc, ◌≤ℤ◌}
use go_hsql.Base.Words.{Bytes, wrap, IsInt, of_word-to_word_32}
use go_hsql.Proto.Const.{mode_none}
use go_hsql.Proto.Errors.{Error, invalid_frame_length}
use go_hsql.Proto.RowOutput.{write_int}
use go_hsql.Proto.Frame.{
  ◌>>=◌, Stream, got, failed, read_full, read_int32, read_payload, write_frame, write_terminator,
  read_frame,
}

-- The two results of a read.
pub Stream-cases :
    {A : Type 0} (r : Stream A)
    → ((a : A) × (rest : Bytes) × (r ≡ got a rest)) ⊎ ((e : Error) × (r ≡ failed e))
Stream-cases (got a rest) = inl (a, rest, refl)
Stream-cases (failed e) = inr (e, refl)

read_int32-write_int :
    (v : ℤ) (rest : Bytes) → IsInt 32 v → read_int32 (write_int v ++ rest) ≡ got v rest
unfolding read_int32 write_int
read_int32-write_int (pos n) rest h = ground arith
read_int32-write_int (negsuc n) rest h = ground arith

read_full-append : (b rest : Bytes) → read_full (length b) (b ++ rest) ≡ got b rest
unfolding read_full
read_full-append b rest =
    rw (ltb-false (length (b ++ rest)) (length b) (omega (arith, length-append b rest)))
      (rw (take-append b rest, drop-append b rest))

wrap_length : (n : ℕ) → n < 2 ^ 31 → wrap 32 (pos n) ≡ pos n
wrap_length n h = of_word-to_word_32 (pos n) h

ne_test : (mode : ℕ) → mode ≢ mode_none → (mode == mode_none) ≡ false
ne_test mode h = ground arith

sub_four : (n : ℕ) → 4 + n - 4 ≡ n
sub_four n = omega arith

-- A frame of a mode other than NONE, whose payload with its 4 bytes of length is under 2^31 bytes
-- long, is read back with its mode and payload, and the stream goes on behind it.
pub read_frame-write_frame :
    (mode : ℕ) (payload rest : Bytes)
    → mode ≢ mode_none
    → 4 + length payload < 2 ^ 31
    → read_frame (write_frame mode payload ++ rest) ≡ got (mode, payload) rest
unfolding read_frame read_payload write_frame
read_frame-write_frame mode payload rest h fits =
    rw (wrap_length (4 + length payload) fits, append_assoc, ne_test mode h)
      (rw (
        read_int32-write_int (pos (4 + length payload)) (payload ++ rest) fits,
        ltb-false (4 + length payload) 4 (omega arith),
        sub_four (length payload),
        read_full-append payload rest,
      ))

-- More bytes behind the input do not change a read that succeeded: they join what is left.
read_full_more :
    (n : ℕ) (s more : Bytes) {b rest : Bytes}
    → read_full n s ≡ got b rest
    → read_full n (s ++ more) ≡ got b (rest ++ more)
unfolding read_full
read_full_more n s more e = elim (Bool-cases (ltb (length s) n)) [
  | inl t ↦ cc (rw t at e)
  | inr f ↦ ground (
    arith,
    e,
    length-append s more,
    take-append_le n s more (ground arith),
    drop-append_le n s more (ground arith),
  )
]

read_int32_more :
    (s more : Bytes) {v : ℤ} {rest : Bytes}
    → read_int32 s ≡ got v rest
    → read_int32 (s ++ more) ≡ got v (rest ++ more)
unfolding read_int32
read_int32_more s more e = elim (Stream-cases (read_full 4 s)) [
  | inl (b, r, k) ↦ rw (read_full_more 4 s more k) (ground (arith, rw k at e))
  | inr (x, k) ↦ cc (rw k at e)
]

read_payload_more :
    (mode : ℕ) (n : ℤ) (s more : Bytes) {p : ℕ × Bytes} {rest : Bytes}
    → read_payload mode n s ≡ got p rest
    → read_payload mode n (s ++ more) ≡ got p (rest ++ more)
unfolding read_payload
read_payload_more mode (negsuc n) s more e = cc
read_payload_more mode (pos n) s more e = elim (Bool-cases (ltb n 4)) [
  | inl t ↦ cc (rw t at e)
  | inr f ↦ rw f (full (rw f at e))
]
  where
    full :
        {p : ℕ × Bytes} {rest : Bytes}
        → (read_full (n - 4) s >>= λ payload rest. got (mode, payload) rest) ≡ got p rest
        → (read_full (n - 4) (s ++ more) >>= λ payload rest. got (mode, payload) rest)
          ≡ got p (rest ++ more)
    full e = elim (Stream-cases (read_full (n - 4) s)) [
      | inl (b, r, k) ↦ rw (read_full_more (n - 4) s more k) (ground (arith, rw k at e))
      | inr (x, k) ↦ cc (rw k at e)
    ]

got_more :
    {A : Type 0} {a b : A} {s t : Bytes} (more : Bytes)
    → Path (Stream A) (got a s) (got b t)
    → Path (Stream A) (got a (s ++ more)) (got b (t ++ more))
got_more more e = cc

read_frame_more :
    (s more : Bytes) {p : ℕ × Bytes} {rest : Bytes}
    → read_frame s ≡ got p rest
    → read_frame (s ++ more) ≡ got p (rest ++ more)
unfolding read_frame
read_frame_more [] more e = cc
read_frame_more (m ∷ s) more e = elim (Bool-cases (m == mode_none)) [
  | inl t ↦ rw t (got_more more (rw t at e))
  | inr f ↦ rw f (elim (Stream-cases (read_int32 s)) [
    | inl (n, r, k) ↦ rw (read_int32_more s more k) (read_payload_more m n r more (rw (f, k) at e))
    | inr (x, k) ↦ cc (rw (f, k) at e)
  ])
]

-- A proper prefix of such a frame is never taken for a frame: the read fails.
pub read_frame_truncated :
    (mode x : ℕ) (payload front back : Bytes)
    → mode ≢ mode_none
    → 4 + length payload < 2 ^ 31
    → write_frame mode payload ≡ front ++ x ∷ back
    → (e : Error) × (read_frame front ≡ failed e)
read_frame_truncated mode x payload front back h fits e = elim (Stream-cases (read_frame front)) [
  | inl (p, r, k) ↦ absurd (nonempty r (more_of p r k))
  | inr f ↦ f
]
  where
    whole : read_frame (front ++ x ∷ back) ≡ got (mode, payload) []
    whole = rw (append-nil, e) at (read_frame-write_frame mode payload [] h fits)

    more_of : (p : ℕ × Bytes) (r : Bytes) → read_frame front ≡ got p r → [] ≡ r ++ x ∷ back
    more_of p r k = cc (whole, read_frame_more front (x ∷ back) k)

    nonempty : (r : Bytes) → [] ≡ r ++ x ∷ back → ⊥
    nonempty [] q = cc
    nonempty (y ∷ r) q = cc

-- Under a mode other than NONE, a declared length of an int32 that is 3 or less, or negative, is
-- refused with an error that names it and the mode.
pub read_frame_bad_length :
    (mode : ℕ) (n : ℤ) (rest : Bytes)
    → mode ≢ mode_none
    → IsInt 32 n
    → n ≤ℤ pos 3
    → read_frame (mode ∷ write_int n ++ rest) ≡ failed (invalid_frame_length n mode)
unfolding read_frame read_payload
read_frame_bad_length mode n rest h fits small =
    rw (ne_test mode h, read_int32-write_int n rest fits) (bad n small)
  where
    bad : (n : ℤ) → n ≤ℤ pos 3 → read_payload mode n rest ≡ failed (invalid_frame_length n mode)
    bad (pos n) small = ground arith
    bad (negsuc n) small = refl

pub read_frame-write_terminator :
    (rest : Bytes) → read_frame (write_terminator ++ rest) ≡ got (mode_none, []) rest
unfolding read_frame write_terminator
read_frame-write_terminator rest = refl
