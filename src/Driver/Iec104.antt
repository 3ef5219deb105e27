-- ===== src/Driver/Iec104.antt =====
-- drivers/microgrid_iec104/transport.py: the frames of IEC 60870-5-104 and the numbered exchange of a
-- connection. A byte is a number below 256. What a socket still holds is a list of bytes; a read that
-- wants more than there is ends as one on a closed connection does. Threads and locks are left out:
-- each send holds the lock.
pub mod Counters
pub mod Session
use Prim.Native.Nat.{bit_and, bit_or}
use diep_lab.Base.{
  ℕ, zero, suc, ◌+◌, ◌*◌, ◌/◌, Option, none, some, List, [], ◌∷◌, ◌++◌, length, take, drop, ltb,
  nat_eqb, if◌then◌else◌,
}

abbrev pub Bytes : Type 0
Bytes = List ℕ

abbrev pub start_byte : ℕ
start_byte = 0x68

abbrev pub startdt_act : ℕ
startdt_act = 0x07

abbrev pub startdt_con : ℕ
startdt_con = 0x0B

abbrev pub stopdt_act : ℕ
stopdt_act = 0x13

abbrev pub stopdt_con : ℕ
stopdt_con = 0x23

abbrev pub testfr_act : ℕ
testfr_act = 0x43

abbrev pub testfr_con : ℕ
testfr_con = 0x83

-- The two octets of a sequence number: `(n << 1) & 0xFE` and `(n >> 7) & 0xFF`.
unfoldable pub low_octet : ℕ → ℕ
low_octet n = bit_and (n * 2) 0xFE

unfoldable pub high_octet : ℕ → ℕ
high_octet n = bit_and (n / 128) 0xFF

-- `(lo | (hi << 8)) >> 1`
unfoldable pub number_of : ℕ → ℕ → ℕ
number_of lo hi = bit_or lo (hi * 256) / 2

-- `(n + 1) & 0x7FFF`
unfoldable pub next_number : ℕ → ℕ
next_number n = bit_and (n + 1) 0x7FFF

-- `_encode_i`, with `none` for the ValueError of a body beyond one byte's length.
unfoldable pub encode_i : Bytes → ℕ → ℕ → Option Bytes
encode_i asdu ns nr =
    let body = low_octet ns ∷ high_octet ns ∷ low_octet nr ∷ high_octet nr ∷ asdu in
    if ltb 255 (length body) then none else some (start_byte ∷ length body ∷ body)

unfoldable pub encode_s : ℕ → Bytes
encode_s nr = start_byte ∷ 4 ∷ 0x01 ∷ 0x00 ∷ low_octet nr ∷ high_octet nr ∷ []

unfoldable pub encode_u : ℕ → Bytes
encode_u func = start_byte ∷ 4 ∷ func ∷ 0 ∷ 0 ∷ 0 ∷ []

pub data Apdu : Type 0 where
  information : ℕ → ℕ → Bytes → Apdu
  supervisory : ℕ → Apdu
  unnumbered : ℕ → Apdu

-- The format, by the first control octet.
unfoldable pub apdu_of : Bytes → Option Apdu
apdu_of (a ∷ b ∷ c ∷ d ∷ asdu) =
    if nat_eqb (bit_and a 0x01) 0
    then some (information (number_of a b) (number_of c d) asdu)
    else if nat_eqb (bit_and a 0x03) 1
    then some (supervisory (number_of c d))
    else some (unnumbered a)
apdu_of _ = none

unfoldable pub with_rest : Option Apdu → Bytes → Option (Apdu × Bytes)
with_rest none rest = none
with_rest (some a) rest = some (a, rest)

-- `_read_apdu`, with what stays in the socket.
unfoldable pub read_apdu : Bytes → Option (Apdu × Bytes)
read_apdu (h ∷ len ∷ rest) =
    if nat_eqb h start_byte
    then (if ltb (length rest) len
        then none
        else with_rest (apdu_of (take len rest)) (drop len rest))
    else none
read_apdu _ = none

-- `Iec104Peer`, with the bytes that it has written to its socket.
pub record Peer : Type 0 where
  pub ns : ℕ
  pub nr : ℕ
  pub written : Bytes

unfoldable pub write_frame : Option Bytes → Peer → Option Peer
write_frame none p = none
write_frame (some f) p = some (record p { ns = next_number p.ns; written = p.written ++ f })

unfoldable pub send_asdu : Bytes → Peer → Option Peer
unfolding write_frame
send_asdu asdu p = write_frame (encode_i asdu p.ns p.nr) p

unfoldable pub send_u : ℕ → Peer → Peer
send_u func p = record p { written = p.written ++ encode_u func }

unfoldable pub ack_received : Peer → Peer
ack_received p =
    let nr = next_number p.nr in record p { nr = nr; written = p.written ++ encode_s nr }

-- What the server answers to a U-frame.
unfoldable pub answer_u : ℕ → Peer → Peer
answer_u func p =
    if nat_eqb func startdt_act
    then send_u startdt_con p
    else if nat_eqb func stopdt_act
    then send_u stopdt_con p
    else if nat_eqb func testfr_act
    then send_u testfr_con p
    else p

-- One round of `Iec104Server._handle`: the peer after it, and the ASDU for the callback.
unfoldable pub handle : Apdu → Peer → Peer × Option Bytes
handle (unnumbered func) p = (answer_u func p, none)
handle (information ns nr asdu) p = (ack_received p, some asdu)
handle (supervisory nr) p = (p, none)

abbrev pub cons_some : Option Bytes → List Bytes → List Bytes
cons_some none l = l
cons_some (some a) l = a ∷ l

-- The loop of `_handle` over what the socket holds: the ASDUs in order, and the peer at its end. A
-- round takes two bytes at least, so the number of bytes is fuel enough.
unfoldable pub serve : ℕ → Bytes → Peer → List Bytes × Peer
unfolding handle
serve zero buf p = ([], p)
serve (suc fuel) buf p = elim (read_apdu buf) [
  | none ↦ ([], p)
  | some (a, rest) ↦
      let (p', asdu) = handle a p in
      let (more, p'') = serve fuel rest p' in (cons_some asdu more, p'')
]

unfoldable pub send_rest : (Peer → Option Peer) → Option Peer → Option Peer
send_rest f none = none
send_rest f (some p) = f p

-- Several ASDUs, one after another.
unfoldable pub send_all : List Bytes → Peer → Option Peer
unfolding send_rest
send_all [] p = some p
send_all (a ∷ as') p = send_rest (send_all as') (send_asdu a p)
