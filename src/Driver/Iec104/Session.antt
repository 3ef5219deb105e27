-- ===== src/Driver/Iec104/Session.antt =====
-- The numbered exchange of a connection: what a peer sends is what the server receives.
use mathlib.Core.List.{append_assoc, append-nil}
use diep_lab.Base.{
  ℕ, zero, suc, ◌+◌, ◌%◌, ◌<◌, ◌≤◌, some, List, [], ◌∷◌, ◌++◌, ◌≡◌, refl, ◌∙◌, ap, length,
  take_prefix, drop_prefix, length-append, All, arith,
}
use diep_lab.Driver.Iec104.{
  Bytes, start_byte, low_octet, high_octet, next_number, encode_i, information, apdu_of, with_rest,
  read_apdu, Peer, write_frame, send_asdu, ack_received, handle, serve, send_rest, send_all,
}
use diep_lab.Driver.Iec104.Counters.{number_of-octets, low_octet_even, next_number-counts}

-- What `encode_i` returns, where it does.
abbrev apdu_bytes : Bytes → ℕ → ℕ → Bytes
apdu_bytes asdu ns nr =
    let body = low_octet ns ∷ high_octet ns ∷ low_octet nr ∷ high_octet nr ∷ asdu in
    start_byte ∷ length body ∷ body

-- An ASDU that leaves room for the control octets.
abbrev pub IsShort : Bytes → Type 0
IsShort asdu = length asdu ≤ 251

encode_i-information :
    (asdu : Bytes) (ns nr : ℕ) → IsShort asdu → encode_i asdu ns nr ≡ some (apdu_bytes asdu ns nr)
unfolding encode_i
encode_i-information asdu ns nr h = ground arith

read_apdu-information :
    (asdu rest : Bytes) (ns nr : ℕ)
    → ns < 32768
    → nr < 32768
    → read_apdu (apdu_bytes asdu ns nr ++ rest) ≡ some (information ns nr asdu, rest)
unfolding read_apdu apdu_of with_rest
read_apdu-information asdu rest ns nr hs hr =
    rw
      (
        take_prefix asdu rest,
        drop_prefix asdu rest,
        low_octet_even ns hs,
        number_of-octets ns hs,
        number_of-octets nr hr,
      )
      (ground (arith, length-append asdu rest))

-- The number after those of several frames.
abbrev number_after : List Bytes → ℕ → ℕ
number_after [] n = n
number_after (a ∷ as') n = number_after as' (next_number n)

abbrev frames : List Bytes → ℕ → ℕ → Bytes
frames [] ns nr = []
frames (a ∷ as') ns nr = apdu_bytes a ns nr ++ frames as' (next_number ns) nr

next_number-IsBounded : (n : ℕ) → n < 32768 → next_number n < 32768
next_number-IsBounded n h = rw (next_number-counts n h) (omega arith)

send_all-frames :
    (as' : List Bytes) (p : Peer)
    → All IsShort as'
    → send_all as' p
      ≡ some (record p { ns = number_after as' p.ns; written = p.written ++ frames as' p.ns p.nr })
unfolding send_all send_rest send_asdu write_frame
send_all-frames [] p h = ap some (rw (append-nil p.written) refl)
send_all-frames (a ∷ as') p (short, h) =
    rw (encode_i-information a p.ns p.nr short, write_frame)
      (rw (send_all-frames as' _ h) (ap some (rw append_assoc refl)))

-- One round on a whole frame.
one_round :
    (fuel : ℕ) (a rest : Bytes) (as' : List Bytes) (ns nr : ℕ) (p q : Peer)
    → ns < 32768
    → nr < 32768
    → serve fuel rest (ack_received p) ≡ (as', q)
    → serve (suc fuel) (apdu_bytes a ns nr ++ rest) p ≡ (a ∷ as', q)
unfolding serve handle
one_round fuel a rest as' ns nr p q hs hr served =
    rw (read_apdu-information a rest ns nr hs hr, serve) (rw (served, handle) refl)

serve-frames :
    (fuel : ℕ) (as' : List Bytes) (ns nr : ℕ) (p : Peer)
    → length as' ≤ fuel
    → ns < 32768
    → nr < 32768
    → (q : Peer) × (serve fuel (frames as' ns nr) p ≡ (as', q)) × (q.nr ≡ number_after as' p.nr)
unfolding serve handle ack_received read_apdu
serve-frames zero [] ns nr p l hs hr = (p, refl, refl)
serve-frames (suc fuel) [] ns nr p l hs hr = (p, refl, refl)
serve-frames zero (a ∷ as') ns nr p l hs hr = absurd (omega arith)
serve-frames (suc fuel) (a ∷ as') ns nr p l hs hr =
    let (q, served, counted) =
      serve-frames fuel as' (next_number ns) nr (ack_received p) (omega arith)
        (next_number-IsBounded ns hs) hr in
    (q, one_round fuel a (frames as' (next_number ns) nr) as' ns nr p q hs hr served, counted)

length-frames : (as' : List Bytes) (ns nr : ℕ) → length as' ≤ length (frames as' ns nr)
length-frames [] ns nr = omega arith
length-frames (a ∷ as') ns nr = omega (
  arith,
  length-append (apdu_bytes a ns nr) (frames as' (next_number ns) nr),
  length-frames as' (next_number ns) nr,
)

number_after-counts :
    (as' : List Bytes) (n : ℕ) → n < 32768 → number_after as' n ≡ (n + length as') % 32768
number_after-counts [] n h = omega arith
number_after-counts (a ∷ as') n h = omega (
  arith,
  next_number-counts n h,
  number_after-counts as' (next_number n) (next_number-IsBounded n h),
)

-- On a fresh connection whose counters agree, a peer can send any ASDUs of at most 251 bytes, and the
-- server that reads the bytes hands on exactly these ASDUs, in order, and counts each of them modulo
-- 2^15: its receive number is again the peer's send number.
pub serve-send_all :
    (as' : List Bytes) (p q : Peer)
    → All IsShort as'
    → p.written ≡ []
    → p.ns < 32768
    → p.nr < 32768
    → q.nr ≡ p.ns
    → (p' : Peer) × (send_all as' p ≡ some p')
      × ((q' : Peer) × (serve (length p'.written) p'.written q ≡ (as', q'))
          × (q'.nr ≡ p'.ns)
          × (p'.ns ≡ (p.ns + length as') % 32768))
serve-send_all as' p q short fresh hs hr agree =
    let bytes = frames as' p.ns p.nr in
    let (q', served, counted) =
      serve-frames (length bytes) as' p.ns p.nr q (length-frames as' p.ns p.nr) hs hr in
    (
      record p { ns = number_after as' p.ns; written = p.written ++ bytes },
      send_all-frames as' p short,
      (q', rw fresh served, counted ∙ ap (number_after as') agree, number_after-counts as' p.ns hs),
    )
