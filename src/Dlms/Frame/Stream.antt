-- ===== src/Dlms/Frame/Stream.antt =====
-- `unframe` on a byte stream of frames.
use diep_lab.Base.{
  ℕ, zero, suc, ◌+◌, ◌*◌, ◌≤◌, ◌<◌, ◌≡◌, ◌≢◌, refl, ap, ap₂, ◌∙◌, List, [], ◌∷◌, ◌++◌, length,
  length-append, take, drop, take_prefix, drop_prefix, arith, length-drop,
}
use mathlib.Core.List.{append_assoc}
use native.Mathlib.Nat.{add-zero}
use diep_lab.Base.Result.{Result, ok, err, ◌>>=◌, Yields, ok-Yields, >>=-Yields}
use diep_lab.Dlms.Bytes.{pack_u16, u16_round}
use diep_lab.Dlms.Frame.{
  Error, out_of_fuel, Bytes, frame_ver, frame, Found, cons_pdu, unframe_from, unframe,
}

-- What `frame` returns, where it does.
frame-eq : (pdu f : Bytes) → frame pdu ≡ ok f → f ≡ frame_ver ∷ (pack_u16 (length pdu) ++ pdu)
unfolding frame
frame-eq pdu f h = ground arith

-- The bytes of the frames, in order.
abbrev pub stream : List Bytes → Bytes
stream [] = []
stream (pdu ∷ pdus) = (frame_ver ∷ (pack_u16 (length pdu) ++ pdu)) ++ stream pdus

-- The beginning of a frame: at most its header is there, or fewer bytes than the header tells.
pub data IsIncomplete : Bytes → Type 0 where
  nothing : IsIncomplete []
  one : (a : ℕ) → IsIncomplete (a ∷ [])
  two : (a b : ℕ) → IsIncomplete (a ∷ b ∷ [])
  body :
      (hi lo : ℕ) (rest : Bytes)
      → length rest < hi * 256 + lo
      → IsIncomplete (frame_ver ∷ hi ∷ lo ∷ rest)

unframe_incomplete :
    (fuel i : ℕ) (tail : Bytes) → IsIncomplete tail → unframe_from (suc fuel) i tail ≡ ok ([], i)
unfolding unframe_from
unframe_incomplete fuel i _ nothing = refl
unframe_incomplete fuel i _ (one a) = refl
unframe_incomplete fuel i _ (two a b) = refl
unframe_incomplete fuel i _ (body hi lo rest short) = ground arith

-- One round of the loop on a whole frame.
unframe_step :
    (fuel i : ℕ) (pdu rest : Bytes)
    → unframe_from (suc fuel) i (frame_ver ∷ (pack_u16 (length pdu) ++ (pdu ++ rest)))
      ≡ cons_pdu pdu (unframe_from fuel (i + 3 + length pdu) rest)
unfolding unframe_from
unframe_step fuel i pdu rest =
    rw (u16_round (length pdu), take_prefix pdu rest, drop_prefix pdu rest)
      (ground (arith, length-append pdu rest))

unframe_stream :
    (fuel i : ℕ) (pdus : List Bytes) (tail : Bytes)
    → length pdus ≤ fuel
    → IsIncomplete tail
    → unframe_from (suc fuel) i (stream pdus ++ tail) ≡ ok (pdus, i + length (stream pdus))
unframe_stream fuel i [] tail h t = rw (unframe_incomplete fuel i tail t, add-zero)
unframe_stream zero i (pdu ∷ pdus) tail h t = absurd (omega arith)
unframe_stream (suc fuel) i (pdu ∷ pdus) tail h t =
    rw
      (
        append_assoc pdu (stream pdus) tail,
        unframe_step (suc fuel) i pdu (stream pdus ++ tail),
        unframe_stream fuel (i + 3 + length pdu) pdus tail (omega arith) t,
      )
      (ap (λ n. ok (pdu ∷ pdus, n)) (omega (arith, length-append pdu (stream pdus))))

-- The bytes that a sender of these PDUs writes, if none is too long.
unfoldable pub frame_all : List Bytes → Result Error Bytes
frame_all [] = ok []
frame_all (pdu ∷ pdus) = do f ← frame pdu; fs ← frame_all pdus; ok (f ++ fs)

frame_all-Yields : (pdus : List Bytes) → Yields (λ b. b ≡ stream pdus) (frame_all pdus)
unfolding frame_all
frame_all-Yields [] = ok-Yields [] refl
frame_all-Yields (pdu ∷ pdus) = >>=-Yields _ _ λ f framed.
    >>=-Yields _ _
      λ fs rest. ok-Yields _ (ap₂ ◌++◌ (frame-eq pdu f framed) ((frame_all-Yields pdus).at fs rest))

length-stream : (pdus : List Bytes) → length pdus ≤ length (stream pdus)
length-stream [] = omega arith
length-stream (pdu ∷ pdus) = omega (arith, length-stream pdus, length-append pdu (stream pdus))

-- Whatever PDUs were framed, and whatever incomplete frame stands behind them, `unframe` returns
-- these PDUs in order and consumes exactly the bytes of their frames.
pub unframe-frame_all :
    (pdus : List Bytes) (bytes tail : Bytes)
    → frame_all pdus ≡ ok bytes
    → IsIncomplete tail
    → unframe (bytes ++ tail) ≡ ok (pdus, length bytes)
unfolding unframe
unframe-frame_all pdus bytes tail framed t =
    let written = (frame_all-Yields pdus).at bytes framed in
    rw written (
      unframe_stream (length (stream pdus ++ tail)) 0 pdus tail
        (omega (arith, length-stream pdus, length-append (stream pdus) tail)) t
      ∙ ap (λ n. ok (pdus, n)) (omega arith))

cons_pdu-ne_fuel :
    (pdu : Bytes) (r : Result Error Found) → r ≢ err out_of_fuel → cons_pdu pdu r ≢ err out_of_fuel
cons_pdu-ne_fuel pdu (ok (pdus, i)) h = λ e. cc
cons_pdu-ne_fuel pdu (err e) h = h

unframe_from-ne_fuel :
    (fuel i : ℕ) (rest : Bytes) → length rest < fuel → unframe_from fuel i rest ≢ err out_of_fuel
unfolding unframe_from
unframe_from-ne_fuel zero i rest h = elim h [ ]
unframe_from-ne_fuel (suc fuel) i [] h = λ e. cc
unframe_from-ne_fuel (suc fuel) i (v ∷ []) h = λ e. cc
unframe_from-ne_fuel (suc fuel) i (v ∷ hi ∷ []) h = λ e. cc
unframe_from-ne_fuel (suc fuel) i (v ∷ hi ∷ lo ∷ rest) h =
    let ln = hi * 256 + lo in
    ground (
      arith,
      cons_pdu-ne_fuel (take ln rest) (unframe_from fuel (i + 3 + ln) (drop ln rest)),
      unframe_from-ne_fuel fuel (i + 3 + ln) (drop ln rest) (omega (arith, length-drop ln rest)),
    )

-- On any bytes the loop ends by itself: it returns PDUs, or refuses a frame by its version.
pub unframe-ne_fuel : (buf : Bytes) → unframe buf ≢ err out_of_fuel
unfolding unframe
unframe-ne_fuel buf = unframe_from-ne_fuel (suc (length buf)) 0 buf (omega arith)
