-- ===== src/Dlms/Frame.antt =====
-- drivers/dlms/protocol.py: the transport framing, `frame` and `unframe`.
pub mod Stream
use diep_lab.Base.{
  ℕ, zero, suc, ◌+◌, Bool, Option, none, some, List, [], ◌∷◌, ◌++◌, length, take, drop, ltb,
  nat_eqb, if◌then◌else◌,
}
use diep_lab.Base.Result.{Result, ok, err, ◌>>=◌, ◌>>◌, guard}
use diep_lab.Dlms.Bytes.{pack_u16, unpack_u16}

pub data Error : Type 0 where
  too_long : Error
  bad_version : ℕ → Error
  -- the model's own: the loop of `unframe` has no rounds left
  out_of_fuel : Error

abbrev pub Bytes : Type 0
Bytes = List ℕ

abbrev pub frame_ver : ℕ
frame_ver = 1

unfoldable pub frame : Bytes → Result Error Bytes
frame pdu =
    if ltb 65535 (length pdu) then err too_long else ok (frame_ver ∷ (pack_u16 (length pdu) ++ pdu))

-- What the loop has found: the PDUs and the index behind them.
abbrev pub Found : Type 0
Found = List Bytes × ℕ

abbrev pub cons_pdu : Bytes → Result Error Found → Result Error Found
cons_pdu pdu (ok (pdus, i)) = ok (pdu ∷ pdus, i)
cons_pdu pdu (err e) = err e

-- The `while` loop, on what stands at index `i`: `rest` is `buf[i:]`. Each round takes three bytes
-- at least, so the length of the buffer is fuel enough.
unfoldable pub unframe_from : ℕ → ℕ → Bytes → Result Error Found
unframe_from zero i rest = err out_of_fuel
unframe_from (suc fuel) i [] = ok ([], i)
unframe_from (suc fuel) i (v ∷ []) = ok ([], i)
unframe_from (suc fuel) i (v ∷ hi ∷ []) = ok ([], i)
unframe_from (suc fuel) i (v ∷ hi ∷ lo ∷ rest) =
    let ln = unpack_u16 hi lo in
    let more = cons_pdu (take ln rest) (unframe_from fuel (i + 3 + ln) (drop ln rest)) in
    if nat_eqb v frame_ver
    then (if ltb (length rest) ln then ok ([], i) else more)
    else err (bad_version v)

unfoldable pub unframe : Bytes → Result Error Found
unframe buf = unframe_from (suc (length buf)) 0 buf
