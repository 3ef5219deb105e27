-- ===== src/Driver/Sequence.antt =====
-- `_build_envelope`: the sequence numbers of a device.
use diep_lab.Base.{ℕ, ◌+◌, ◌≡◌, String, List, [], ◌∷◌, ◌==◌, string_eq, arith, if◌then◌else◌}
use diep_lab.Base.Dict.{Dict, lookup, insert, lookup-insert}
use diep_lab.Contracts.Measurement.{default}
use diep_lab.Driver.{take_sequence}

-- The dict after the devices of a run have taken their numbers.
unfoldable pub take_all : List String → Dict String ℕ → Dict String ℕ
take_all [] seqs = seqs
take_all (d ∷ ds) seqs = take_all ds (take_sequence d seqs).1

-- How often the device occurs in the run.
abbrev pub times : String → List String → ℕ
times d [] = 0
times d (x ∷ xs) = (if d == x then 1 else 0) + times d xs

next-take_all :
    (ds : List String) (d : String) (seqs : Dict String ℕ)
    → default 0 (lookup d (take_all ds seqs)) ≡ default 0 (lookup d seqs) + times d ds
unfolding take_all take_sequence
next-take_all [] d seqs = omega arith
next-take_all (x ∷ ds) d seqs =
    let next = default 0 (lookup x seqs) + 1 in
    ground (arith, next-take_all ds d (insert x next seqs), lookup-insert d x next seqs)

-- From a fresh process, the envelope of a device gets as its number how many envelopes that device
-- has had before, so the numbers of each device are 0, 1, 2 and so on.
pub take_sequence-counts :
    (ds : List String) (d : String) → (take_sequence d (take_all ds [])).0 ≡ times d ds
unfolding take_sequence lookup
take_sequence-counts ds d = omega (arith, next-take_all ds d [])
