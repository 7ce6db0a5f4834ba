-- ===== src/Config/Properties/Parse.antt =====
-- props.go: what parseServerProperties finds in a list of properties that was printed; tls_config.go:
-- what a lookup finds behind the changes of the registry.
use go_hsql.Base.{
  ℕ, ◌<◌, ◌≡◌, refl, sym, ap, ◌∙◌, inl, inr, Bool, true, false, Option, none, some, List, [], ◌∷◌,
  ◌++◌, map, arith, ◌==◌, if◌then◌else◌, Bool-cases, length, length-append, All, All-append,
  All-imp, eqb_text, eqb_text_iff,
}
use go_hsql.Proto.Utf8.{Text}
use go_hsql.Proto.Types.Decimal.{is_space}
use go_hsql.Proto.Types.Decimal.RoundTrip.{trim_space-NoSpace}
use go_hsql.Config.Properties.{
  lookup, delete_key, insert, register_tls_config, deregister_tls_config, lookup_tls_config, push,
  split, push_key, cut_at_equals, put_pair, add_pair, add_pairs, parse_server_properties,
}

eqb_text_trans : (s t u : Text) → eqb_text s t ≡ true → eqb_text s u ≡ eqb_text t u
eqb_text_trans s t u same = ap (λ x. eqb_text x u) ((eqb_text_iff s t).0 same)

either_way : {A : Type 0} → {x : A} → (b : Bool) → x ≡ (if b then x else x)
either_way b = ground arith

module _ {A : Type 0} where
  hidden :
      (b : Bool)
      → (v : A) → (x : Option A)
      → (if b then none else x) ≡ (if b then none else (if b then some v else x))
  hidden b v x = ground arith

  hidden_none :
      (b : Bool)
      → (y x : Option A) → (if b then y else (if b then none else x)) ≡ (if b then y else x)
  hidden_none b y x = ground arith

module _ {A : Type 0} where
  lookup-delete_key :
      (key k : Text)
      → (m : List (Text × A))
      → lookup key (delete_key k m) ≡ (if eqb_text key k then none else lookup key m)
  unfolding lookup delete_key
  lookup-delete_key key k [] = either_way (eqb_text key k)
  lookup-delete_key key k ((l, v) ∷ m) = elim (Bool-cases (eqb_text k l)) [
    | inl e ↦
        rw (e, lookup-delete_key key k m, sym ((eqb_text_iff k l).0 e))
          (hidden (eqb_text key k) v (lookup key m))
    | inr e ↦ elim (Bool-cases (eqb_text key k)) [
      | inl f ↦ rw (e, f, eqb_text_trans key k l f ∙ e, lookup-delete_key key k m, f) refl
      | inr f ↦ rw (e, f, lookup-delete_key key k m, f) refl
    ]
  ]

  -- A map behind an insertion: the new value under its key, and what it had under any other.
  lookup-insert :
      (key k : Text)
      → (v : A) → (m : List (Text × A))
      → lookup key (insert k v m) ≡ (if eqb_text key k then some v else lookup key m)
  unfolding lookup insert
  lookup-insert key k v m =
      rw (lookup-delete_key key k m) (hidden_none (eqb_text key k) (some v) (lookup key m))

-- The registry behind a registration under a name that is not empty, and behind a deregistration: a
-- lookup of that name finds the new configuration, or none, and any other name what it found before.
pub lookup_tls_config-register_tls_config :
    {A : Type 0}
    → (name : Text) → 0 < length name
    → (cfg : A) → (m : List (Text × A)) → (key : Text)
    → (lookup_tls_config key (register_tls_config name (some cfg) m).0
        ≡ (if eqb_text key name then some cfg else lookup_tls_config key m))
      × (lookup_tls_config key (deregister_tls_config name m)
          ≡ (if eqb_text key name then none else lookup_tls_config key m))
unfolding lookup_tls_config register_tls_config deregister_tls_config
lookup_tls_config-register_tls_config [] filled cfg m key = ground arith
lookup_tls_config-register_tls_config (c ∷ name) filled cfg m key =
    (lookup-insert key (c ∷ name) cfg m, lookup-delete_key key (c ∷ name) m)

abbrev pub IsPlain : ℕ → Type 0
IsPlain c = (is_space c ≡ false) × ((c == 59) ≡ false)

-- A key and a value that stand for themselves in the printed list.
abbrev pub IsPair : Text × Text → Type 0
IsPair (k, v) = All (λ c. IsPlain c × ((c == 61) ≡ false)) k × All IsPlain v

abbrev pub pair_text : Text × Text → Text
pair_text (k, v) = k ++ (61 ∷ v)

-- key=value;key=value.
unfoldable pub print_properties : List (Text × Text) → Text
print_properties [] = []
print_properties (p ∷ []) = pair_text p
print_properties (p ∷ q ∷ ps) = pair_text p ++ (59 ∷ print_properties (q ∷ ps))

-- The last value that a list gives to a key, or else the one that was there.
unfoldable pub last_value : Text → List (Text × Text) → Option Text → Option Text
last_value key [] found = found
last_value key ((k, v) ∷ ps) found = last_value key ps (if eqb_text key k then some v else found)

pair-IsPlain : (p : Text × Text) → IsPair p → All IsPlain (pair_text p)
unfolding is_space
pair-IsPlain (k, v) (key, value) =
    All-append IsPlain k (61 ∷ v)
      (All-imp (λ c. IsPlain c × ((c == 61) ≡ false)) IsPlain k (λ c h. h.0) key)
      ((refl, refl), value)

plain-NoSpace : (s : Text) → All IsPlain s → All (λ c. is_space c ≡ false) s
plain-NoSpace s plain = All-imp IsPlain _ s (λ c h. h.0) plain

split-end : (s : Text) → All IsPlain s → split 59 s ≡ s ∷ []
unfolding split push
split-end [] plain = refl
split-end (c ∷ s) (one, plain) = rw (one.1, split-end s plain) refl

split-separator : (s t : Text) → All IsPlain s → split 59 (s ++ (59 ∷ t)) ≡ s ∷ split 59 t
unfolding split push
split-separator [] t plain = refl
split-separator (c ∷ s) t (one, plain) = rw (one.1, split-separator s t plain) refl

cut_at_equals-pair :
    (k v : Text)
    → All (λ c. IsPlain c × ((c == 61) ≡ false)) k
    → cut_at_equals (k ++ (61 ∷ v)) ≡ some (k, v)
unfolding cut_at_equals push_key
cut_at_equals-pair [] v plain = refl
cut_at_equals-pair (c ∷ k) v (one, plain) = rw (one.1, cut_at_equals-pair k v plain) refl

pair_filled : (k v : Text) → eqb_text (k ++ (61 ∷ v)) [] ≡ false
unfolding eqb_text
pair_filled [] v = refl
pair_filled (c ∷ k) v = refl

add_pair-pair :
    (p : Text × Text)
    → IsPair p
    → (m : List (Text × Text)) → add_pair (pair_text p) m ≡ insert p.0 p.1 m
unfolding add_pair put_pair
add_pair-pair (k, v) valid m =
    let keys =
      All-imp (λ c. IsPlain c × ((c == 61) ≡ false)) (λ c. is_space c ≡ false) k (λ c h. h.0.0)
        valid.0 in
    rw
      (
        trim_space-NoSpace (k ++ (61 ∷ v))
            (plain-NoSpace (k ++ (61 ∷ v)) (pair-IsPlain (k, v) valid)),
        pair_filled k v,
        cut_at_equals-pair k v valid.0,
        trim_space-NoSpace k keys,
        trim_space-NoSpace v (plain-NoSpace v valid.1),
      )
      refl

split-print_properties :
    (p : Text × Text)
    → (ps : List (Text × Text)) → All IsPair (p ∷ ps)
    → split 59 (print_properties (p ∷ ps)) ≡ map pair_text (p ∷ ps)
unfolding print_properties
split-print_properties p [] (one, valid) = split-end (pair_text p) (pair-IsPlain p one)
split-print_properties p (q ∷ ps) (one, valid) =
    split-separator (pair_text p) (print_properties (q ∷ ps)) (pair-IsPlain p one)
    ∙ ap (λ ts. pair_text p ∷ ts) (split-print_properties q ps valid)

lookup-add_pairs :
    (ps : List (Text × Text))
    → All IsPair ps
    → (m : List (Text × Text)) → (key : Text)
    → lookup key (add_pairs (map pair_text ps) m) ≡ last_value key ps (lookup key m)
unfolding add_pairs last_value
lookup-add_pairs [] valid m key = refl
lookup-add_pairs ((k, v) ∷ ps) (one, valid) m key =
    ap (λ n. lookup key (add_pairs (map pair_text ps) n)) (add_pair-pair (k, v) one m)
    ∙ lookup-add_pairs ps valid (insert k v m) key
    ∙ ap (last_value key ps) (lookup-insert key k v m)

parse_split : (s : Text) → 0 < length s → parse_server_properties s ≡ add_pairs (split 59 s) []
unfolding parse_server_properties
parse_split [] filled = ground arith
parse_split (c ∷ s) filled = refl

print_filled :
    (p : Text × Text) → (ps : List (Text × Text)) → 0 < length (print_properties (p ∷ ps))
unfolding print_properties
print_filled (k, v) [] = let n = length-append k (61 ∷ v) in omega arith
print_filled (k, v) (q ∷ ps) =
    let pair = length-append k (61 ∷ v) in
    let all = length-append (pair_text (k, v)) (59 ∷ print_properties (q ∷ ps)) in omega arith

-- A list of properties in the form key=value;key=value, whose keys and values have no semicolon and
-- no blank and whose keys have no equals sign: a key that is looked up in the parsed properties has
-- the last value that the list gives to it, and none where the list gives it none.
pub lookup-parse_server_properties :
    (ps : List (Text × Text))
    → All IsPair ps
    → (key : Text)
    → lookup key (parse_server_properties (print_properties ps)) ≡ last_value key ps none
unfolding parse_server_properties print_properties last_value lookup
lookup-parse_server_properties [] valid key = refl
lookup-parse_server_properties (p ∷ ps) valid key =
    ap (lookup key) (
      parse_split (print_properties (p ∷ ps)) (print_filled p ps)
      ∙ ap (λ ts. add_pairs ts []) (split-print_properties p ps valid))
    ∙ lookup-add_pairs (p ∷ ps) valid [] key
