-- ===== src/Wire/Receive.antt =====
-- conn.go receive: the response that it reads from the frames of one transmission.
use go_hsql.Base.{
  ℕ, zero, suc, ◌+◌, ◌^◌, ◌<◌, ◌≡◌, refl, ◌≢◌, false, List, [], ◌∷◌, ◌++◌, map, arith, ◌==◌, length,
  length-append, All,
}
use go_hsql.Base.Words.{Bytes}
use go_hsql.Proto.Const.{mode_none}
use go_hsql.Proto.Errors.{ok}
use go_hsql.Proto.Frame.{write_frame, write_terminator}
use go_hsql.Proto.Frame.RoundTrip.{read_frame-write_frame, read_frame-write_terminator}
use go_hsql.Proto.Result.{Result}
use go_hsql.Proto.Result.Decode.{decode_result}
use go_hsql.Wire.{
  response, add_chained, with_chained, after_frame, receive_chained, receive_main, receive_first,
  receive,
}

-- A frame that a server sends, and the result that it decodes to.
pub record Frame : Type 0 where
  pub mode : ℕ
  pub payload : Bytes
  pub result : Result

pub record IsFrame (f : Frame) : Type 0 where
  pub not_none : f.mode ≢ mode_none
  pub fits : 4 + length f.payload < 2 ^ 31
  pub decodes : decode_result f.mode f.payload ≡ ok f.result

-- Frames with the terminator behind them.
unfoldable pub transmission : List Frame → Bytes → Bytes
transmission [] rest = write_terminator ++ rest
transmission (f ∷ fs) rest = write_frame f.mode f.payload ++ transmission fs rest

frame_filled : (mode : ℕ) → (payload : Bytes) → 0 < length (write_frame mode payload)
unfolding write_frame
frame_filled mode payload = omega arith

not_terminator : (mode : ℕ) → mode ≢ mode_none → (mode == mode_none) ≡ false
not_terminator mode h = ground arith

transmission-length : (fs : List Frame) → (rest : Bytes) → length fs < length (transmission fs rest)
unfolding transmission write_terminator
transmission-length [] rest = omega arith
transmission-length (f ∷ fs) rest =
    let more = transmission-length fs rest in
    let filled = frame_filled f.mode f.payload in
    let joined = length-append (write_frame f.mode f.payload) (transmission fs rest) in omega arith

receive_chained-transmission :
    (main : Result)
    → (fs : List Frame) → All IsFrame fs
    → (rest : Bytes) → (fuel : ℕ) → length fs < fuel
    → receive_chained fuel main (transmission fs rest)
      ≡ response (record { main = main; chained = map (λ f. f.result) fs }) rest
unfolding receive_chained after_frame transmission with_chained add_chained
receive_chained-transmission main [] valid rest zero enough = ground arith
receive_chained-transmission main (f ∷ fs) valid rest zero enough = ground arith
receive_chained-transmission main [] valid rest (suc fuel) enough =
    rw (read_frame-write_terminator rest) refl
receive_chained-transmission main (f ∷ fs) (one, valid) rest (suc fuel) enough =
    rw
      (
        read_frame-write_frame f.mode f.payload (transmission fs rest) one.not_none one.fits,
        not_terminator f.mode one.not_none,
        one.decodes,
        receive_chained-transmission main fs valid rest fuel (omega arith),
      )
      refl

-- A main frame and chained frames that decode, of modes other than NONE and of under 2^31 bytes, with
-- a terminator behind them: receive gives the main result with the chained ones in order, and what
-- follows the terminator is left unread.
pub receive-transmission :
    (f : Frame)
    → (fs : List Frame) → All IsFrame (f ∷ fs)
    → (rest : Bytes)
    → receive (transmission (f ∷ fs) rest)
      ≡ response (record { main = f.result; chained = map (λ g. g.result) fs }) rest
unfolding receive receive_first receive_main transmission
receive-transmission f fs (one, valid) rest =
    let longer = transmission-length fs rest in
    rw
      (
        read_frame-write_frame f.mode f.payload (transmission fs rest) one.not_none one.fits,
        one.decodes,
      )
      (receive_chained-transmission f.result fs valid rest (suc (length (transmission fs rest)))
        (omega arith))
