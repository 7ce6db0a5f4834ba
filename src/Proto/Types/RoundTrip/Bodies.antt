-- ===== src/Proto/Types/RoundTrip/Bodies.antt =====
-- internal/proto/types.go: the presence flag, the times and the bit strings, written and read back.
use go_hsql.Base.{
  ℕ, ◌*◌, ◌/◌, ◌%◌, ◌^◌, ◌<◌, ◌≡◌, ap, ◌∙◌, Bool, true, false, [], ◌++◌, append_assoc, append-nil,
  arith, if◌then◌else◌, ltb-false, length, length-append, take-append, drop-append,
}
use go_hsql.Base.Int.{ℤ, pos, negsuc, ◌+ℤ◌, ◌-ℤ◌, floor_mod}
use go_hsql.Base.Words.{Bytes, wrap, IsInt, of_word-to_word_32}
use go_hsql.Proto.Errors.{ok}
use go_hsql.Proto.RowOutput.{write_u8, write_int, write_long}
use go_hsql.Proto.RowInput.{RowInput, Reader, new_row_input, need, read_int}
use go_hsql.Proto.RowInput.RoundTrip.{read_u8-write_u8, read_int-write_int, read_long-write_long}
use go_hsql.Proto.Types.Kind.{ColumnType, Kind, timestamp, bits, kind_of}
use go_hsql.Proto.Types.Value.{Value, Time, null, bytes}
use go_hsql.Proto.Types.Coerce.{Host, time_of_day_seconds, zone_seconds, unix_time, clock_time}
use go_hsql.Proto.Types.Write.{write_value}
use go_hsql.Proto.Types.Read.{
  read_zone, read_bits, bit_bytes, read_array, read_kind, read_value_with,
}
use go_hsql.Proto.Types.Sends.{sent_offset, IsWireTime}

-- The value v is written as some bytes, and from them and whatever follows w is read.
abbrev pub Arrives : Host → ColumnType → Value → Value → Type 0
Arrives host c v w =
    (b : Bytes) × (write_value host c v ≡ ok b)
    × ((f : Reader Value) (rest : Bytes)
        → read_value_with c f (new_row_input (b ++ rest)) ≡ (w, new_row_input rest))

-- The presence flag in front of a body that is read as w.
pub read_present :
    (c : ColumnType) (f : Reader Value) (b rest : Bytes) {w : Value}
    → read_kind (kind_of c.code) c (read_array c.base_code f) (new_row_input (b ++ rest))
      ≡ (w, new_row_input rest)
    → read_value_with c f (new_row_input ((write_u8 1 ++ b) ++ rest)) ≡ (w, new_row_input rest)
unfolding read_value_with
read_present c f b rest h = rw (append_assoc, read_u8-write_u8 1 (b ++ rest)) h

pub read_missing :
    (c : ColumnType) (f : Reader Value) (rest : Bytes)
    → read_value_with c f (new_row_input (write_u8 0 ++ rest)) ≡ (null, new_row_input rest)
unfolding read_value_with
read_missing c f rest = rw (read_u8-write_u8 0 rest)

-- The value that a 32-bit conversion keeps.
pub wrap_fits : (v : ℤ) → IsInt 32 v → wrap 32 v ≡ v
wrap_fits v h = of_word-to_word_32 v h

add_zero : (a : ℤ) → a +ℤ pos 0 ≡ a
unfolding ◌+ℤ◌
add_zero (pos n) = ground arith
add_zero (negsuc n) = ground arith

-- Nanoseconds within the second carry nothing over.
pub unix_time_whole :
    (sec : ℤ) (n : ℕ) (zone : ℤ)
    → n < 1000000000
    → unix_time sec (pos n) zone ≡ record { unix = sec; nanosecond = n; offset = zone }
unfolding unix_time
unix_time_whole sec n zone h = rw (small_div n h, small_mod n h, add_zero sec)
  where
    small_div : (n : ℕ) → n < 1000000000 → n / 1000000000 ≡ 0
    small_div n h = omega arith

    small_mod : (n : ℕ) → n < 1000000000 → n % 1000000000 ≡ n
    small_mod n h = omega arith

-- The bytes of the nanoseconds and of the zone, if the type has one.
abbrev pub tail_bytes : Bool → Time → Bytes
tail_bytes zoned t =
    write_int (wrap 32 (pos t.nanosecond))
    ++ (if zoned then write_int (wrap 32 (zone_seconds t)) else [])

-- The two reads behind the seconds.
abbrev read_tail : Bool → RowInput → (ℤ × ℤ) × RowInput
read_tail zoned r =
    let (nanos, s) = read_int r in let (zone, u) = read_zone zoned s in ((nanos, zone), u)

read_tail_lem :
    (zoned : Bool) (t : Time) (rest : Bytes)
    → IsWireTime t
    → read_tail zoned (new_row_input (tail_bytes zoned t ++ rest))
      ≡ ((pos t.nanosecond, sent_offset zoned t), new_row_input rest)
unfolding zone_seconds
read_tail_lem true t rest h = rw (
  append_assoc,
  wrap_fits (pos t.nanosecond) (omega arith),
  read_int-write_int (pos t.nanosecond) (write_int (wrap 32 t.offset) ++ rest) (omega arith),
  wrap_fits t.offset h.offset_fits,
  read_int-write_int t.offset rest h.offset_fits,
)
read_tail_lem false t rest h = rw (
  append-nil,
  wrap_fits (pos t.nanosecond) (omega arith),
  read_int-write_int (pos t.nanosecond) rest (omega arith),
)

time_of_day_fits : (t : Time) → IsInt 32 (time_of_day_seconds t)
unfolding time_of_day_seconds
time_of_day_fits t = day_fits (t.unix +ℤ t.offset)
  where
    day_fits : (z : ℤ) → floor_mod z 86400 < 2 ^ 31
    day_fits (pos n) = omega arith
    day_fits (negsuc n) = omega arith

pub read_times :
    (c : ColumnType) (elements : Reader Value) (zoned : Bool) (t : Time) (rest : Bytes)
    → IsWireTime t
    → read_kind (Kind.time zoned) c elements (
        new_row_input ((write_int (wrap 32 (time_of_day_seconds t)) ++ tail_bytes zoned t) ++ rest))
      ≡ (
        Value.time (record {
          unix = time_of_day_seconds t -ℤ sent_offset zoned t;
          nanosecond = t.nanosecond;
          offset = sent_offset zoned t;
        }),
        new_row_input rest,
      )
unfolding read_kind clock_time
read_times c elements zoned t rest h =
    rw
      (
        append_assoc,
        wrap_fits (time_of_day_seconds t) (time_of_day_fits t),
        read_int-write_int (time_of_day_seconds t) (tail_bytes zoned t ++ rest)
            (time_of_day_fits t),
      )
      (ap
          (λ (p : (ℤ × ℤ) × RowInput).
            (Value.time (clock_time (time_of_day_seconds t) p.0.0 p.0.1), p.1))
          (read_tail_lem zoned t rest h)
        ∙ ap (λ u. (Value.time u, new_row_input rest))
            (unix_time_whole (time_of_day_seconds t -ℤ sent_offset zoned t) t.nanosecond
              (sent_offset zoned t) h.nanosecond_fits))

pub read_timestamps :
    (c : ColumnType) (elements : Reader Value) (zoned : Bool) (t : Time) (rest : Bytes)
    → IsWireTime t
    → read_kind
        (timestamp zoned)
        c
        elements
        (new_row_input ((write_long t.unix ++ tail_bytes zoned t) ++ rest))
      ≡ (Value.time (record t { offset = sent_offset zoned t }), new_row_input rest)
unfolding read_kind
read_timestamps c elements zoned t rest h =
    rw (append_assoc, read_long-write_long t.unix (tail_bytes zoned t ++ rest) h.unix_fits)
      (ap (λ (p : (ℤ × ℤ) × RowInput). (Value.time (unix_time t.unix p.0.0 p.0.1), p.1))
          (read_tail_lem zoned t rest h)
        ∙ ap (λ u. (Value.time u, new_row_input rest))
            (unix_time_whole t.unix t.nanosecond (sent_offset zoned t) h.nanosecond_fits))

-- Eight bits to a byte, rounded up.
bit_bytes_lem : (n : ℕ) → bit_bytes (pos (n * 8)) ≡ pos n
unfolding ◌+ℤ◌
bit_bytes_lem n = ground arith

read_bits_lem :
    (b rest : Bytes)
    → read_bits (pos (length b)) (new_row_input (b ++ rest)) ≡ (bytes b, new_row_input rest)
unfolding read_bits need
read_bits_lem b rest =
    rw (ltb-false (length (b ++ rest)) (length b) (omega (arith, length-append b rest)))
      (rw (take-append b rest, drop-append b rest))

pub read_bit_strings :
    (c : ColumnType) (elements : Reader Value) (b rest : Bytes)
    → length b * 8 < 2 ^ 31
    → read_kind bits c elements
        (new_row_input ((write_int (wrap 32 (pos (length b * 8))) ++ b) ++ rest))
      ≡ (bytes b, new_row_input rest)
unfolding read_kind
read_bit_strings c elements b rest h =
    rw
      (
        append_assoc,
        wrap_fits (pos (length b * 8)) h,
        read_int-write_int (pos (length b * 8)) (b ++ rest) h,
        bit_bytes_lem (length b),
      )
      (read_bits_lem b rest)
