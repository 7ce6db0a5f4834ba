-- ===== src/Config/Properties.antt =====
-- props.go: the server's properties, and tls_config.go: the registered TLS configurations. A map is
-- a list of keys with their values in which a key stands once; the mutex around the registry makes
-- each call one step.
pub mod Parse
use go_hsql.Base.{
  ℕ, Bool, true, false, Option, none, some, List, [], ◌∷◌, ◌==◌, if◌then◌else◌, eqb_text,
}
use go_hsql.Proto.Utf8.{Text}
use go_hsql.Proto.Types.Decimal.{trim_space}

module _ {A : Type 0} where
  -- m[key].
  unfoldable pub lookup : Text → List (Text × A) → Option A
  lookup key [] = none
  lookup key ((k, v) ∷ m) = let rest = lookup key m in if eqb_text key k then some v else rest

  -- delete(m, key).
  unfoldable pub delete_key : Text → List (Text × A) → List (Text × A)
  delete_key key [] = []
  delete_key key ((k, v) ∷ m) =
      let rest = delete_key key m in if eqb_text key k then rest else (k, v) ∷ rest

  -- m[key] = v.
  unfoldable pub insert : Text → A → List (Text × A) → List (Text × A)
  unfolding delete_key
  insert key v m = (key, v) ∷ delete_key key m

  -- RegisterTLSConfig: none is the nil configuration, and false the error. A clone is the same value.
  unfoldable pub register_tls_config : Text → Option A → List (Text × A) → List (Text × A) × Bool
  unfolding insert
  register_tls_config [] cfg m = (m, false)
  register_tls_config (c ∷ name) none m = (m, false)
  register_tls_config (c ∷ name) (some cfg) m = (insert (c ∷ name) cfg m, true)

  unfoldable pub deregister_tls_config : Text → List (Text × A) → List (Text × A)
  deregister_tls_config name m = delete_key name m

  unfoldable pub lookup_tls_config : Text → List (Text × A) → Option A
  lookup_tls_config name m = lookup name m

unfoldable pub push : ℕ → List Text → List Text
push c [] = (c ∷ []) ∷ []
push c (s ∷ more) = (c ∷ s) ∷ more

-- strings.Split at an ASCII character.
unfoldable pub split : ℕ → Text → List Text
unfolding push
split sep [] = [] ∷ []
split sep (c ∷ s) = let rest = split sep s in if c == sep then [] ∷ rest else push c rest

unfoldable pub push_key : ℕ → Option (Text × Text) → Option (Text × Text)
push_key c none = none
push_key c (some (k, v)) = some (c ∷ k, v)

-- pair[:i] and pair[i+1:] at the first `=`.
unfoldable pub cut_at_equals : Text → Option (Text × Text)
unfolding push_key
cut_at_equals [] = none
cut_at_equals (c ∷ s) =
    let rest = cut_at_equals s in if c == 61 then some ([], s) else push_key c rest

unfoldable pub put_pair : Text → Option (Text × Text) → List (Text × Text) → List (Text × Text)
unfolding insert
put_pair pair none m = insert pair [] m
put_pair pair (some (k, v)) m = insert (trim_space k) (trim_space v) m

-- One turn of the loop over the pairs.
unfoldable pub add_pair : Text → List (Text × Text) → List (Text × Text)
unfolding put_pair cut_at_equals
add_pair pair m =
    let p = trim_space pair in if eqb_text p [] then m else put_pair p (cut_at_equals p) m

unfoldable pub add_pairs : List Text → List (Text × Text) → List (Text × Text)
unfolding add_pair
add_pairs [] m = m
add_pairs (p ∷ pairs) m = add_pairs pairs (add_pair p m)

-- strings.Split of the empty string would give one empty pair, which the loop passes over too.
unfoldable pub parse_server_properties : Text → List (Text × Text)
unfolding add_pairs split
parse_server_properties [] = []
parse_server_properties (c ∷ s) = add_pairs (split 59 (c ∷ s)) []
