-- ===== src/Driver/Iec104/Counters.antt =====
-- The sequence numbers of IEC 60870-5-104 in their two octets: checked for each of the 32768.
use Prim.Native.Nat.{bit_and}
use diep_lab.Base.{
  ℕ, zero, suc, ◌+◌, ◌%◌, ◌<◌, Bool, true, false, ◌&&◌, ◌≡◌, refl, nat_eqb, ap, ◌∙◌, ◌-◌,
  if◌then◌else◌, arith,
}
use diep_lab.Driver.Iec104.{low_octet, high_octet, number_of, next_number}

-- What the receiver computes of one number, and what comes after it.
unfoldable pub is_coded : ℕ → Bool
is_coded n =
    nat_eqb (number_of (low_octet n) (high_octet n)) n
    && nat_eqb (bit_and (low_octet n) 0x01) 0
    && nat_eqb (next_number n) ((n + 1) % 32768)

coded_up_to : ℕ → Bool
coded_up_to zero = true
coded_up_to (suc n) = let rest = coded_up_to n in if is_coded n then rest else false

all_coded : coded_up_to 32768 ≡ true
unfolding coded_up_to is_coded low_octet high_octet number_of next_number
all_coded = refl

before : (n : ℕ) → coded_up_to (suc n) ≡ true → coded_up_to n ≡ true
unfolding coded_up_to
before n h = ground arith

-- By the distance of the number from the bound.
coded_within : (d n : ℕ) → coded_up_to (d + suc n) ≡ true → is_coded n ≡ true
unfolding coded_up_to
coded_within zero n h = ground arith
coded_within (suc d) n h =
    let shift : suc (d + suc n) ≡ suc d + suc n = (omega arith) in
    coded_within d n (before (d + suc n) (ap coded_up_to shift ∙ h))

coded : (n : ℕ) → n < 32768 → is_coded n ≡ true
coded n h =
    let from : 32767 - n + suc n ≡ 32768 = (omega arith) in
    coded_within (32767 - n) n (ap coded_up_to from ∙ all_coded)

module _ (n : ℕ) (h : n < 32768) where
  pub number_of-octets : number_of (low_octet n) (high_octet n) ≡ n
  unfolding is_coded
  number_of-octets = ground (arith, coded n h)

  pub low_octet_even : bit_and (low_octet n) 0x01 ≡ 0
  unfolding is_coded
  low_octet_even = ground (arith, coded n h)

  pub next_number-counts : next_number n ≡ (n + 1) % 32768
  unfolding is_coded
  next_number-counts = ground (arith, coded n h)
