-- ===== src/Proto/Utf8/RoundTrip.antt =====
-- Decoding what was encoded, and the loop's fuel.
use go_hsql.Base.{
  ℕ, zero, suc, ◌≤◌, ◌<◌, ◌≡◌, refl, ap, ◌∙◌, [], ◌∷◌, map, arith, length, All, drop, length-drop,
}
use go_hsql.Base.Words.{Bytes}
use mathlib.Core.Path.{ap₂}
use go_hsql.Proto.Utf8.{
  Text, IsRune, encode_rune, encode_modified_utf8, decode_step, decode_loop, valid_rune,
  decode_modified_utf8,
}

decode_loop-encode_rune :
    (fuel r : ℕ) (rest : Bytes)
    → IsRune r
    → decode_loop (suc fuel) (encode_rune r rest) ≡ r ∷ decode_loop fuel rest
unfolding decode_loop decode_step encode_rune
decode_loop-encode_rune fuel r rest h = ground arith

encode_rune_longer : (r : ℕ) (rest : Bytes) → length rest < length (encode_rune r rest)
unfolding encode_rune
encode_rune_longer r rest = ground arith

valid_rune_id : (r : ℕ) → IsRune r → valid_rune r ≡ r
unfolding valid_rune
valid_rune_id r h = ground arith

decode_loop-encode_modified_utf8 :
    (s : Text) (fuel : ℕ)
    → All IsRune s
    → length (encode_modified_utf8 s) ≤ fuel
    → decode_loop fuel (encode_modified_utf8 s) ≡ s
unfolding encode_modified_utf8
decode_loop-encode_modified_utf8 [] fuel h le = unfold decode_loop in refl
decode_loop-encode_modified_utf8 (r ∷ s) zero h le =
    absurd (omega (arith, encode_rune_longer r (encode_modified_utf8 s)))
decode_loop-encode_modified_utf8 (r ∷ s) (suc fuel) h le =
    decode_loop-encode_rune fuel r (encode_modified_utf8 s) h.0
    ∙ ap (◌∷◌ r) (
        decode_loop-encode_modified_utf8 s fuel h.1
          (omega (arith, encode_rune_longer r (encode_modified_utf8 s))))

map-valid_rune : (s : Text) → All IsRune s → map valid_rune s ≡ s
map-valid_rune [] h = refl
map-valid_rune (r ∷ s) h = ap₂ ◌∷◌ (valid_rune_id r h.0) (map-valid_rune s h.1)

-- Decoding the modified UTF-8 of a Go string gives the string, whatever code points it holds.
pub decode_modified_utf8-encode_modified_utf8 :
    (s : Text) → All IsRune s → decode_modified_utf8 (encode_modified_utf8 s) ≡ s
unfolding decode_modified_utf8
decode_modified_utf8-encode_modified_utf8 s h =
    rw (decode_loop-encode_modified_utf8 s (length (encode_modified_utf8 s)) h (omega arith))
      (map-valid_rune s h)

-- The encoding has the bytes of Java's modified UTF-8: no byte is zero, and each is a byte.
encode_rune_bytes :
    (r : ℕ) (rest : Bytes)
    → IsRune r
    → All (λ c. (0 < c) × (c < 256)) rest
    → All (λ c. (0 < c) × (c < 256)) (encode_rune r rest)
unfolding encode_rune
encode_rune_bytes r rest h hr = ground arith

-- Modified UTF-8 never writes a zero byte, and every element is a byte.
pub encode_modified_utf8_bytes :
    (s : Text) → All IsRune s → All (λ c. (0 < c) × (c < 256)) (encode_modified_utf8 s)
unfolding encode_modified_utf8
encode_modified_utf8_bytes [] h = tt
encode_modified_utf8_bytes (r ∷ s) h =
    encode_rune_bytes r (encode_modified_utf8 s) h.0 (encode_modified_utf8_bytes s h.1)

decode_step_advance :
    (c : ℕ) (b : Bytes)
    → (1 ≤ (decode_step c (c ∷ b)).1) × ((decode_step c (c ∷ b)).1 ≤ suc (length b))
unfolding decode_step
decode_step_advance c b = ground arith

rounds_shrink :
    (f n : ℕ) (c : ℕ) (b : Bytes) → 1 ≤ n → length (c ∷ b) ≤ suc f → length (drop n (c ∷ b)) ≤ f
rounds_shrink f n c b h le = omega (arith, length-drop n (c ∷ b))

-- Each round takes a byte at least, so on any input any fuel from the number of bytes on gives the
-- same text.
pub decode_loop_fuel :
    (f g : ℕ) (b : Bytes) → length b ≤ f → length b ≤ g → decode_loop f b ≡ decode_loop g b
unfolding decode_loop
decode_loop_fuel zero zero [] h k = refl
decode_loop_fuel zero (suc g) [] h k = refl
decode_loop_fuel (suc f) zero [] h k = refl
decode_loop_fuel (suc f) (suc g) [] h k = refl
decode_loop_fuel zero g (c ∷ b) h k = absurd (omega arith)
decode_loop_fuel (suc f) zero (c ∷ b) h k = absurd (omega arith)
decode_loop_fuel (suc f) (suc g) (c ∷ b) h k =
    let n = (decode_step c (c ∷ b)).1 in
    let adv = (decode_step_advance c b).0 in
    ap (◌∷◌ (decode_step c (c ∷ b)).0) (
      decode_loop_fuel f g (drop n (c ∷ b)) (rounds_shrink f n c b adv h)
        (rounds_shrink g n c b adv k))
