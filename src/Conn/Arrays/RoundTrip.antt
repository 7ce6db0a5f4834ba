-- ===== src/Conn/Arrays/RoundTrip.antt =====
-- array.go: what the scanner reads back from the text form of an ARRAY.
use go_hsql.Base.{
  ℕ, zero, suc, ◌≤◌, ◌<◌, ◌≡◌, refl, sym, ap, ◌∙◌, inl, inr, Bool, false, some, List, [], ◌∷◌, ◌++◌,
  arith, if◌then◌else◌, Bool-cases, length, length-append, subst, eqb_text,
}
use mathlib.Core.List.{reverse, reverse-append, reverse-reverse}
use go_hsql.Proto.Utf8.{Text}
use go_hsql.Proto.Types.Value.{Value, Values, nil, cons}
use go_hsql.Proto.Types.Decimal.{is_space, trim_left, trim_space}
use go_hsql.Conn.Arrays.{
  ArrayHost, join, encode_array_element, encode_elements, encode_array_text, ArrayElem,
  inside_brackets, skip_blanks, parse_array_element, with_element, more_elements, parse_elements,
  parse_inside, parse_array_elements,
}
use go_hsql.Conn.Arrays.Literals.{IsQuoting, after, join_cons, before_bracket-append}
use go_hsql.Conn.Arrays.Elements.{
  IsElement, element_of, elements_of, AreFlat, encode_array_element-IsElement,
}

skip_blanks-start : (c : ℕ) → (s : Text) → is_space c ≡ false → skip_blanks (c ∷ s) ≡ c ∷ s
unfolding skip_blanks is_space
skip_blanks-start c s not_space = ground arith

length-after : (more : List Text) → length (join more) ≤ length (after more)
unfolding after join
length-after [] = omega arith
length-after (s ∷ more) = omega arith

-- One turn of the loop over a text that starts with an element.
element_turn :
    (host : ArrayHost)
    → (fuel : ℕ) → (text : Text) → (elem : ArrayElem) → IsElement host text elem
    → (more : List Text)
    → parse_elements host (suc fuel) (text ++ after more)
      ≡ more_elements (parse_elements host fuel) (inr (elem, join more))
unfolding parse_elements
element_turn host fuel text elem is_elem more =
    let first = is_elem.first in
    let others = is_elem.others in
    rw (is_elem.starts, skip_blanks-start first (others ++ after more) is_elem.not_space)
      (ap (more_elements (parse_elements host fuel)) (
        ap (λ t. parse_array_element host (t ++ after more)) (sym is_elem.starts)
        ∙ is_elem.reads more))

shorter :
    (host : ArrayHost)
    → (text : Text) → (elem : ArrayElem) → IsElement host text elem
    → (more : List Text) → length (join more) < length (text ++ after more)
shorter host text elem is_elem more =
    let rest = length-after more in
    rw (is_elem.starts, length-append is_elem.others (after more)) (omega arith)

encode_elements_cons :
    (host : ArrayHost)
    → (v : Value) → (vs : Values)
    → encode_elements host (cons v vs) ≡ encode_array_element host v ∷ encode_elements host vs
unfolding encode_elements
encode_elements_cons host v vs = refl

elements_nil :
    (host : ArrayHost)
    → (fuel : ℕ) → parse_elements host fuel (join (encode_elements host nil)) ≡ inr []
unfolding encode_elements join parse_elements
elements_nil host zero = refl
elements_nil host (suc fuel) = refl

-- An element in front of others that are read from any fuel that is enough for them.
elements_cons :
    (host : ArrayHost)
    → (text : Text) → (elem : ArrayElem) → IsElement host text elem
    → (more : List Text) → (elems : List ArrayElem)
    → ((fuel : ℕ) → length (join more) ≤ fuel → parse_elements host fuel (join more) ≡ inr elems)
    → (fuel : ℕ) → length (text ++ after more) ≤ fuel
    → parse_elements host fuel (text ++ after more) ≡ inr (elem ∷ elems)
unfolding more_elements with_element
elements_cons host text elem is_elem more elems rest zero enough =
    let less = shorter host text elem is_elem more in ground arith
elements_cons host text elem is_elem more elems rest (suc fuel) enough =
    let less = shorter host text elem is_elem more in
    rw (element_turn host fuel text elem is_elem more, rest fuel (omega arith)) refl

elements_lem :
    (host : ArrayHost)
    → IsQuoting host
    → (vs : Values) → AreFlat vs
    → (fuel : ℕ) → length (join (encode_elements host vs)) ≤ fuel
    → parse_elements host fuel (join (encode_elements host vs)) ≡ inr (elements_of host vs)
unfolding AreFlat elements_of
elements_lem host quoting nil flat fuel enough = elements_nil host fuel
elements_lem host quoting (cons v vs) (one, flat) fuel enough =
    let apart =
      ap join (encode_elements_cons host v vs)
      ∙ join_cons (encode_array_element host v) (encode_elements host vs) in
    ap (parse_elements host fuel) apart
    ∙ elements_cons host (encode_array_element host v) (element_of host v)
        (encode_array_element-IsElement host quoting v one) (encode_elements host vs)
        (elements_of host vs) (elements_lem host quoting vs flat) fuel
        (subst (λ t. length t ≤ fuel) apart enough)

-- The blanks around the elements, and the brackets.
trim_left-start : (c : ℕ) → (s : Text) → is_space c ≡ false → trim_left (c ∷ s) ≡ c ∷ s
unfolding trim_left
trim_left-start c s not_space = rw (not_space) refl

trim_space-ends :
    (c d : ℕ)
    → (s : Text) → is_space c ≡ false
    → is_space d ≡ false
    → trim_space (c ∷ (s ++ (d ∷ []))) ≡ c ∷ (s ++ (d ∷ []))
unfolding trim_space
trim_space-ends c d s first last =
    rw
      (
        trim_left-start c (s ++ (d ∷ [])) first,
        reverse-append (c ∷ s) (d ∷ []),
        trim_left-start d (reverse (c ∷ s)) last,
      )
      (ap reverse (sym (reverse-append (c ∷ s) (d ∷ []))) ∙ reverse-reverse (c ∷ (s ++ (d ∷ []))))

trim_left-last :
    (d : ℕ)
    → is_space d ≡ false
    → (s : Text) → (t : Text) × (trim_left (s ++ (d ∷ [])) ≡ t ++ (d ∷ []))
unfolding trim_left
trim_left-last d last [] = ([], trim_left-start d [] last)
trim_left-last d last (c ∷ s) = elim (Bool-cases (is_space c)) [
  | inl e ↦ rw (e) (trim_left-last d last s)
  | inr e ↦ rw (e) (c ∷ s, refl)
]

-- A text whose first code point is no blank is not blank.
trim_space-filled :
    (c : ℕ) → (s : Text) → is_space c ≡ false → eqb_text (trim_space (c ∷ s)) [] ≡ false
unfolding trim_space eqb_text
trim_space-filled c s first =
    let (t, kept) = trim_left-last c first (reverse s) in
    rw (trim_left-start c s first, reverse-append (c ∷ []) s, kept, reverse-append t (c ∷ [])) refl

either_way : {A : Type 0} → {x : A} → (b : Bool) → (if b then x else x) ≡ x
either_way b = ground arith

-- Between the brackets there is nothing, or elements that start with no blank.
inside_lem :
    (host : ArrayHost)
    → IsQuoting host
    → (vs : Values) → AreFlat vs
    → parse_inside host (some (join (encode_elements host vs))) ≡ inr (elements_of host vs)
unfolding parse_inside AreFlat elements_of
inside_lem host quoting nil flat =
    rw (elements_nil host (length (join (encode_elements host nil))))
      (either_way (eqb_text (trim_space (join (encode_elements host nil))) []))
inside_lem host quoting (cons v vs) (one, flat) =
    let is_elem = encode_array_element-IsElement host quoting v one in
    let apart =
      ap join (encode_elements_cons host v vs)
      ∙ join_cons (encode_array_element host v) (encode_elements host vs)
      ∙ ap (λ t. t ++ after (encode_elements host vs)) is_elem.starts in
    let filled =
      ap (λ t. eqb_text (trim_space t) []) apart
      ∙ trim_space-filled is_elem.first (is_elem.others ++ after (encode_elements host vs))
          is_elem.not_space in
    rw (filled) (
      elements_lem host quoting (cons v vs) (one, flat)
        (length (join (encode_elements host (cons v vs)))) (omega arith))

-- A slice without nested ARRAYs and without empty []byte, on a strconv whose Quote gives a literal
-- that Unquote reads back and whose FormatFloat gives no comma, quote or blank: scanning the text
-- form gives one element for each value, in order: the bare NULL for nil, the unquoted content for
-- what was quoted, and the bare token for the numbers, the Booleans and the hex digits.
pub parse_array_elements-encode_array_text :
    (host : ArrayHost)
    → IsQuoting host
    → (vs : Values) → AreFlat vs
    → parse_array_elements host (encode_array_text host vs) ≡ inr (elements_of host vs)
unfolding parse_array_elements encode_array_text inside_brackets is_space
parse_array_elements-encode_array_text host quoting vs flat =
    let text = join (encode_elements host vs) in
    rw (trim_space-ends 91 93 text refl refl, before_bracket-append text)
      (inside_lem host quoting vs flat)
