-- ===== src/Lob/Params/Bound.antt =====
-- lob.go prepareLobParams: the ids that it hands out, and the slots that it leaves behind.
use go_hsql.Base.{
  ℕ, suc, ◌+◌, ◌^◌, ◌≤◌, ◌<◌, ◌≡◌, refl, ap, ◌∙◌, true, false, Option, none, some, List, [], ◌∷◌,
  map, arith, if◌then◌else◌, length, subst,
}
use go_hsql.Base.Int.{ℤ, pos, negsuc, ◌-ℤ◌, eqb_ℤ}
use go_hsql.Base.Words.{wrap, of_word-to_word_64}
use go_hsql.Proto.Const.{sql_clob}
use go_hsql.Proto.Types.Kind.{ColumnType}
use go_hsql.Proto.Types.Coerce.{Host}
use go_hsql.Proto.Types.Value.{Value, lob_ref}
use go_hsql.Lob.Frames.{PendingLob}
use go_hsql.Lob.Params.{
  is_bound, LobSlot, kept, refused, sent, Prepared, with_lob, bind_slot, next_lob_id, lob_slot,
  lob_slots,
}
use go_hsql.Lob.Params.Slots.{
  is_lob, all_bound, new_ref, new_refs, ids_from, IsSlot, is_kept, is_refused, is_sent, either_true,
  lob_slot-IsSlot,
}

-- What holds of the loop's result, started at the id -k - 1.
record IsPrepared (ts : List ColumnType) (vs : List Value) (k : ℕ) (values : List Value) (seq : ℤ)
    (lobs : List PendingLob) : Type 0 where
  ids : map (λ l. l.id) lobs ≡ ids_from k (length lobs)
  next : seq ≡ negsuc (k + length lobs)
  refs : new_refs ts vs values ≡ map (λ l. (l.id, l.is_clob)) lobs
  bound : all_bound ts values ≡ true

negsuc_less : (k : ℕ) → negsuc k -ℤ pos 1 ≡ negsuc (suc k)
unfolding ◌-ℤ◌
negsuc_less k = ground arith

next_lob_id_lem : (k : ℕ) → suc k < 2 ^ 63 → next_lob_id (negsuc k) ≡ (negsuc k, negsuc (suc k))
unfolding next_lob_id
next_lob_id_lem k small =
    ap (λ id. (negsuc k, id))
      (ap (wrap 64) (negsuc_less k) ∙ of_word-to_word_64 (negsuc (suc k)) small)

kept-IsPrepared :
    (t : ColumnType)
    → (v : Value) → (ts : List ColumnType) → (vs : List Value) → (k : ℕ)
    → (if is_lob t then is_bound v else true) ≡ true
    → new_ref t v v ≡ []
    → (values : List Value) → (seq : ℤ) → (lobs : List PendingLob)
    → IsPrepared ts vs k values seq lobs
    → IsPrepared (t ∷ ts) (v ∷ vs) k (v ∷ values) seq lobs
unfolding new_refs all_bound
kept-IsPrepared t v ts vs k quiet same values seq lobs prepared = record {
  ids = prepared.ids;
  next = prepared.next;
  refs = rw (same) prepared.refs;
  bound = rw (quiet) prepared.bound;
}

sent-IsPrepared :
    (t : ColumnType)
    → (v : Value) → (ts : List ColumnType) → (vs : List Value) → (k : ℕ) → (lob : PendingLob)
    → is_bound v ≡ false
    → lob.is_clob ≡ eqb_ℤ t.code sql_clob
    → (values : List Value) → (seq : ℤ) → (lobs : List PendingLob)
    → IsPrepared ts vs (suc k) values seq lobs
    → IsPrepared
        (t ∷ ts)
        (v ∷ vs)
        k
        (lob_ref (negsuc k) lob.is_clob ∷ values)
        seq
        (record lob { id = negsuc k } ∷ lobs)
unfolding new_refs new_ref all_bound is_bound ids_from
sent-IsPrepared t v ts vs k lob loose flag values seq lobs prepared = record {
  ids = ap (λ l. negsuc k ∷ l) prepared.ids;
  next = prepared.next ∙ ap negsuc (omega arith);
  refs = rw (loose, flag, prepared.refs) refl;
  bound = rw (either_true (is_lob t), prepared.bound) refl;
}

with_lob-some :
    (lob : PendingLob)
    → (x : Option (List PendingLob)) → (lobs : List PendingLob) → with_lob lob x ≡ some lobs
    → (more : List PendingLob) × (x ≡ some more) × (lob ∷ more ≡ lobs)
unfolding with_lob
with_lob-some lob none lobs e = ground arith
with_lob-some lob (some more) lobs e = (more, refl, ground arith)

-- What a slot does to the whole loop, whose rest is prepared where it returns.
bind_slot-IsPrepared :
    (t : ColumnType)
    → (v : Value) → (ts : List ColumnType) → (vs : List Value) → (k : ℕ) → suc k < 2 ^ 63
    → (rest : ℤ → Prepared)
    → ((j : ℕ)
        → j ≤ suc k
        → (more : List PendingLob) → (rest (negsuc j)).lobs ≡ some more
        → IsPrepared ts vs j (rest (negsuc j)).values (rest (negsuc j)).seq more)
    → (slot : LobSlot) → IsSlot t v slot
    → (lobs : List PendingLob) → (bind_slot (negsuc k) v vs rest slot).lobs ≡ some lobs
    → let p = bind_slot (negsuc k) v vs rest slot in
      IsPrepared (t ∷ ts) (v ∷ vs) k p.values p.seq lobs
unfolding bind_slot
bind_slot-IsPrepared t v ts vs k small rest prepared kept (is_kept quiet same) lobs returned =
    kept-IsPrepared t v ts vs k quiet same (rest (negsuc k)).values (rest (negsuc k)).seq lobs
      (prepared k (omega arith) lobs returned)
bind_slot-IsPrepared t v ts vs k small rest prepared refused is_refused lobs returned = ground arith
bind_slot-IsPrepared t v ts vs k small rest prepared (sent lob) (is_sent loose flag) lobs returned =
    rw (next_lob_id_lem k small) (
      let sends =
        subst (λ next. with_lob (record lob { id = next.0 }) (rest next.1).lobs ≡ some lobs)
          (next_lob_id_lem k small) returned in
      let (more, others, all) =
        with_lob-some (record lob { id = negsuc k }) (rest (negsuc (suc k))).lobs lobs sends in
      let after = rest (negsuc (suc k)) in
      subst
        (IsPrepared (t ∷ ts) (v ∷ vs) k (lob_ref (negsuc k) lob.is_clob ∷ after.values) after.seq)
        all
        (sent-IsPrepared t v ts vs k lob loose flag after.values after.seq more
          (prepared (suc k) (omega arith) more others)))

none-IsPrepared :
    (ts : List ColumnType)
    → (vs : List Value) → (k : ℕ) → new_refs ts vs vs ≡ []
    → all_bound ts vs ≡ true
    → (lobs : List PendingLob) → some [] ≡ some lobs
    → IsPrepared ts vs k vs (negsuc k) lobs
unfolding ids_from
none-IsPrepared ts vs k no_refs bound [] returned = record {
  ids = refl;
  next = ap negsuc (omega arith);
  refs = no_refs;
  bound = bound;
}
none-IsPrepared ts vs k no_refs bound (lob ∷ lobs) returned = ground arith

module _ (host : Host) where
  lob_slots-IsPrepared :
      (ts : List ColumnType)
      → (vs : List Value) → (k : ℕ) → k + length vs < 2 ^ 63
      → (lobs : List PendingLob) → (lob_slots host ts vs (negsuc k)).lobs ≡ some lobs
      → let p = lob_slots host ts vs (negsuc k) in IsPrepared ts vs k p.values p.seq lobs
  unfolding lob_slots all_bound new_refs
  lob_slots-IsPrepared [] vs k small lobs returned = none-IsPrepared [] vs k refl refl lobs returned
  lob_slots-IsPrepared (t ∷ ts) [] k small lobs returned =
      none-IsPrepared (t ∷ ts) [] k refl refl lobs returned
  lob_slots-IsPrepared (t ∷ ts) (v ∷ vs) k small lobs returned =
      bind_slot-IsPrepared t v ts vs k (omega arith) (lob_slots host ts vs)
        (λ j le. lob_slots-IsPrepared ts vs j (omega arith)) (lob_slot host t v)
        (lob_slot-IsSlot host t v) lobs returned

  -- The loop of prepareLobParams on a connection whose next id is -k - 1, where k and the number of
  -- values stay below 2^63, and where it returns its pending LOBs: these have the ids -k - 1, -k - 2
  -- and so on, the sequence stands behind the last of them, each LobRef that is new in the slots has
  -- the id and the kind of the pending LOB in its place, the kind that its slot's type names, and
  -- every slot of a LOB type holds nil or a LobRef.
  pub lob_slots_lem :
      (ts : List ColumnType)
      → (vs : List Value) → (k : ℕ) → k + length vs < 2 ^ 63
      → (lobs : List PendingLob) → (lob_slots host ts vs (negsuc k)).lobs ≡ some lobs
      → let p = lob_slots host ts vs (negsuc k) in
        (map (λ l. l.id) lobs ≡ ids_from k (length lobs))
        × (p.seq ≡ negsuc (k + length lobs))
        × (new_refs ts vs p.values ≡ map (λ l. (l.id, l.is_clob)) lobs)
        × (all_bound ts p.values ≡ true)
  lob_slots_lem ts vs k small lobs returned =
      let prepared = lob_slots-IsPrepared ts vs k small lobs returned in
      (prepared.ids, prepared.next, prepared.refs, prepared.bound)
