-- ===== src/Conn/Stmt/Arguments.antt =====
-- stmt.go and batch.go: positional arguments, and one count for each statement of a batch.
use go_hsql.Base.{
  subst, ℕ, suc, ◌≡◌, refl, ap, ◌∙◌, List, [], ◌∷◌, ◌++◌, append_assoc, arith, length, set,
  length-append, replicate,
}
use go_hsql.Base.Int.{ℤ}
use go_hsql.Proto.Types.Value.{Value, null, int64, int}
use go_hsql.Conn.Stmt.{bind_value, bind_values, named_to_values, named_from, values_to_named}

length-named_from : (i : ℕ) (vs : List Value) → length (named_from i vs) ≡ length vs
unfolding named_from
length-named_from i [] = refl
length-named_from i (v ∷ vs) = ap suc (length-named_from (suc i) vs)

-- The place behind a front is the one that is written.
set-append :
    {A : Type 0} (front : List A) (x v : A) (rest : List A)
    → set (front ++ x ∷ rest) (length front) v ≡ (front ++ v ∷ []) ++ rest
set-append [] x v rest = refl
set-append (y ∷ front) x v rest = ap (λ l. y ∷ l) (set-append front x v rest)

next_place : (front : List Value) (v : Value) → length (front ++ v ∷ []) ≡ suc (length front)
next_place front v = omega (arith, length-append front (v ∷ []))

bind_values-named_from :
    (front vs : List Value)
    → bind_values (named_from (length front) vs) (front ++ replicate (length vs) null) ≡ front ++ vs
unfolding bind_values bind_value named_from
bind_values-named_from front [] = refl
bind_values-named_from front (v ∷ vs) =
    ap (bind_values (named_from (suc (length front)) vs))
      (set-append front null v (replicate (length vs) null))
    ∙ (subst
        (λ n.
          bind_values (named_from n vs) ((front ++ v ∷ []) ++ replicate (length vs) null)
          ≡ front ++ v ∷ vs)
        (next_place front v)
        (bind_values-named_from (front ++ v ∷ []) vs ∙ append_assoc front (v ∷ []) vs))

-- Values that are numbered in order are bound to these positions: namedToValues gives back what
-- valuesToNamed was given.
pub named_to_values-values_to_named : (vs : List Value) → named_to_values (values_to_named vs) ≡ vs
unfolding named_to_values values_to_named
named_to_values-values_to_named vs = rw (length-named_from 0 vs) (bind_values-named_from [] vs)

-- The rows of a response beside the counts that they stand for: the integer in the first cell of a
-- row, whatever the other cells are, and none for a row that is empty or begins with NULL.
pub data Counting : List (List Value) → List ℤ → Type 0 where
  no_counts : Counting [] []
  by_int64 :
      (n : ℤ) (row : List Value) {rows : List (List Value)} {counts : List ℤ}
      → Counting rows counts
      → Counting ((int64 n ∷ row) ∷ rows) (n ∷ counts)
  by_int :
      (n : ℤ) (row : List Value) {rows : List (List Value)} {counts : List ℤ}
      → Counting rows counts
      → Counting ((int n ∷ row) ∷ rows) (n ∷ counts)
  by_null :
      (row : List Value) {rows : List (List Value)} {counts : List ℤ}
      → Counting rows counts
      → Counting ((null ∷ row) ∷ rows) counts
  by_empty :
      {rows : List (List Value)} {counts : List ℤ}
      → Counting rows counts
      → Counting ([] ∷ rows) counts
