-- ===== src/Conn/Arrays/Literals.antt =====
-- array.go: the literals and the bare tokens of the text of an ARRAY.
use go_hsql.Base.{
  ℕ, ◌<◌, ◌≡◌, refl, sym, ap, ◌∙◌, false, some, List, [], ◌∷◌, ◌++◌, append-nil, ◌==◌, length, All,
  eqb_text,
}
use go_hsql.Proto.Utf8.{Text}
use go_hsql.Proto.Types.Decimal.{is_space}
use go_hsql.Conn.Arrays.{
  ArrayHost, array_null_token, join, before_bracket, put_front, to_quote, to_comma,
}

-- The body of a literal: no quote and no backslash but in an escape of two code points or more.
pub data IsBody : Text → Type 0 where
  ends : IsBody []
  plain : {c : ℕ} {s : Text} → (c == 34) ≡ false → (c == 92) ≡ false → IsBody s → IsBody (c ∷ s)
  escape : {d : ℕ} {s : Text} → IsBody s → IsBody (92 ∷ d ∷ s)

abbrev pub IsBareChar : ℕ → Type 0
IsBareChar c = (is_space c ≡ false) × ((c == 44) ≡ false) × ((c == 34) ≡ false)

-- A token that needs no quotes.
abbrev pub IsBareToken : Text → Type 0
IsBareToken t = (0 < length t) × (eqb_text t array_null_token ≡ false) × All IsBareChar t

-- What strconv documents of Quote and Unquote, and the form of the numbers that FormatFloat gives.
pub record IsQuoting (host : ArrayHost) : Type 0 where
  pub is_literal :
      (s : Text) → (body : Text) × (host.quote s ≡ 34 ∷ (body ++ (34 ∷ []))) × IsBody body
  pub unquote-quote : (s : Text) → host.unquote (host.quote s) ≡ some s
  pub float_token : (x : ℕ) → IsBareToken (host.format_float x)

pub plain-to_quote :
    (c : ℕ)
    → (s : Text) → (c == 34) ≡ false
    → (c == 92) ≡ false
    → to_quote (c ∷ s) ≡ put_front (c ∷ []) (to_quote s)
unfolding to_quote put_front
plain-to_quote c [] not_quote not_escape = rw (not_quote) refl
plain-to_quote c (d ∷ s) not_quote not_escape = rw (not_quote, not_escape) refl

pub quote-to_quote : (rest : Text) → to_quote (34 ∷ rest) ≡ some ([], rest)
unfolding to_quote
quote-to_quote [] = refl
quote-to_quote (c ∷ rest) = refl

pub escape-to_quote :
    (d : ℕ) → (s : Text) → to_quote (92 ∷ d ∷ s) ≡ put_front (92 ∷ d ∷ []) (to_quote s)
unfolding to_quote
escape-to_quote d s = refl

pub body-to_quote :
    (body rest : Text) → IsBody body → to_quote (body ++ (34 ∷ rest)) ≡ some (body, rest)
unfolding put_front
body-to_quote _ rest ends = quote-to_quote rest
body-to_quote _ rest (plain {c} {s} not_quote not_escape more) =
    plain-to_quote c (s ++ (34 ∷ rest)) not_quote not_escape
    ∙ ap (put_front (c ∷ [])) (body-to_quote s rest more)
body-to_quote _ rest (escape {d} {s} more) =
    escape-to_quote d (s ++ (34 ∷ rest)) ∙ ap (put_front (92 ∷ d ∷ [])) (body-to_quote s rest more)

-- What follows an element, in front of the others.
unfoldable pub after : List Text → Text
after [] = []
after (s ∷ more) = 44 ∷ join (s ∷ more)

pub join_cons : (s : Text) → (more : List Text) → join (s ∷ more) ≡ s ++ after more
unfolding join after
join_cons s [] = sym (append-nil s)
join_cons s (t ∷ more) = refl

pub to_comma-after : (more : List Text) → to_comma (after more) ≡ ([], join more)
unfolding after join to_comma
to_comma-after [] = refl
to_comma-after (s ∷ more) = refl

pub to_comma-token :
    (t : Text) → (more : List Text) → All IsBareChar t → to_comma (t ++ after more) ≡ (t, join more)
unfolding to_comma
to_comma-token [] more bare = to_comma-after more
to_comma-token (c ∷ t) more (one, bare) = rw (one.1, to_comma-token t more bare) refl

pub before_bracket-append : (s : Text) → before_bracket (s ++ (93 ∷ [])) ≡ some s
unfolding before_bracket
before_bracket-append [] = refl
before_bracket-append (c ∷ []) = refl
before_bracket-append (c ∷ d ∷ s) = rw (before_bracket-append (d ∷ s)) refl
