-- ===== src/Ingest/Finite.antt =====
-- The typed columns of what the ingestor posts are finite and complete.
use diep_lab.Base.{
  String, Bool, true, false, Option, none, some, List, [], ◌∷◌, ◌≡◌, ◌≢◌, inl, inr, refl, contains,
  string_eq, Bool-cases, All, All-append, arith,
}
use diep_lab.Base.Dict.{Dict, lookup, insert, lookup-insert}
use diep_lab.Base.Result.{ok, err}
use diep_lab.Base.Float.{FloatOps, Parser}
use diep_lab.Contracts.Error.{Outcome, Scalar}
use diep_lab.Contracts.Measurement.{Measurement}
use diep_lab.Contracts.Envelope.{Envelope}
use diep_lab.Contracts.Decode.{from_dict, dedup_key}
use diep_lab.Mdm.Duplicates.{Key}
use diep_lab.Ingest.Native.{
  canonical_fields, extended_numeric, Out, Reading, zeros, num, put, reject, accept_or_reject,
  positive_part, read_fields, read_output, read_pcc, read_numbers,
}
use diep_lab.Ingest.{
  Body, is_flattened, flatten, flatten_all, envelope_to_legacy_body, flat_body, Payload,
  unparseable, not_object, enveloped, flat, State, is_duplicate_envelope, count, persist,
  accept_envelope, take_envelope, handle_message, handle_all,
}

-- The two facts of Python's floats: 0.0 is finite, and so is the negation of a finite number.
pub record KeepsFinite (V : Type 0) ⦃F : FloatOps V⦄ : Type 0 where
  pub zero : F.is_finite (F.decimal 0 1) ≡ true
  pub negated : (v : V) → F.is_finite v ≡ true → F.is_finite (F.neg v) ≡ true

module _ {V : Type 0} ⦃F : FloatOps V⦄ where
  -- Every entry of the dict is finite.
  abbrev pub IsFinite : Dict String V → Type 0
  IsFinite d = All (λ e. F.is_finite e.1 ≡ true) d

  -- Every canonical field is there.
  abbrev pub IsComplete : Dict String V → Type 0
  IsComplete d = (f : String) → contains canonical_fields f ≡ true → lookup f d ≢ none

  -- Both.
  abbrev pub IsClean : Dict String V → Type 0
  IsClean d = IsFinite d × IsComplete d

  IsFinite-insert :
      (k : String) (v : V) (d : Dict String V)
      → F.is_finite v ≡ true
      → IsFinite d
      → IsFinite (insert k v d)
  unfolding insert
  IsFinite-insert k v [] p h = (p, tt)
  IsFinite-insert k v ((j, w) ∷ d) p h = elim (string_eq.dec k j) [
    | yes same ↦ ground arith
    | no other ↦ ground (arith, IsFinite-insert k v d p h.1)
  ]

  IsClean-insert :
      (k : String) (v : V) (d : Dict String V)
      → F.is_finite v ≡ true
      → IsClean d
      → IsClean (insert k v d)
  IsClean-insert k v d p (finite, complete) =
      (IsFinite-insert k v d p finite, λ f m. ground (arith, lookup-insert f k v d, complete f m))

  fields-reject : (fs : List String) (o : Out V) → (reject fs o).fields ≡ o.fields
  unfolding reject
  fields-reject [] o = refl
  fields-reject (f ∷ fs) o = fields-reject fs _

  IsClean-accept :
      (f : String) (v : Option V) (o : Out V)
      → IsClean o.fields
      → IsClean (accept_or_reject f v o).fields
  unfolding accept_or_reject put reject
  IsClean-accept f none o h = h
  IsClean-accept f (some v) o h = elim (Bool-cases (F.is_finite v)) [
    | inl finite ↦ rw finite (IsClean-insert f v o.fields finite h)
    | inr other ↦ rw other h
  ]

  IsClean-read_fields :
      (payload : Reading V) (fs : List String) (o : Out V)
      → IsClean o.fields
      → IsClean (read_fields payload fs o).fields
  unfolding read_fields
  IsClean-read_fields payload [] o h = h
  IsClean-read_fields payload (f ∷ fs) o h =
      IsClean-read_fields payload fs _ (IsClean-accept f (num (lookup f payload)) o h)

  -- The typed columns of everything that was posted.
  abbrev pub IsPosted : List (Body V) → Type 0
  IsPosted bodies = All (λ b. IsClean b.fields) bodies

module _ {V : Type 0} ⦃F : FloatOps V⦄ (floats : KeepsFinite V) where
  positive_part_finite : (v : V) → F.is_finite v ≡ true → F.is_finite (positive_part v) ≡ true
  unfolding positive_part
  positive_part_finite v p = elim (Bool-cases (F.lt (F.decimal 0 1) v)) [
    | inl above ↦ rw above p
    | inr below ↦ rw below floats.zero
  ]

  zeros-IsFinite : (fs : List String) → IsFinite (zeros {V = V} fs)
  unfolding zeros
  zeros-IsFinite [] = tt
  zeros-IsFinite (f ∷ fs) = (floats.zero, zeros-IsFinite fs)

  zeros_known :
      (fs : List String) (f : String) → contains fs f ≡ true → lookup f (zeros {V = V} fs) ≢ none
  unfolding zeros lookup
  zeros_known [] f h = cc
  zeros_known (g ∷ fs) f h = ground (arith, zeros_known fs f)

  zeros-IsClean : IsClean (zeros {V = V} canonical_fields)
  zeros-IsClean = (zeros-IsFinite canonical_fields, zeros_known canonical_fields)

  IsClean-read_output :
      (v : Option V) (o : Out V) → IsClean o.fields → IsClean (read_output v o).fields
  unfolding read_output put
  IsClean-read_output none o h = h
  IsClean-read_output (some v) o h = elim (Bool-cases (F.is_finite v)) [
    | inl finite ↦ rw finite (
        IsClean-insert _ _ _ (positive_part_finite v finite)
          (IsClean-insert _ v _ finite (IsClean-insert _ v o.fields finite h)))
    | inr other ↦ rw (other, fields-reject ("solar_kw" ∷ "power_kw" ∷ "grid_export_kw" ∷ []) o) h
  ]

  IsClean-read_pcc : (v : Option V) (o : Out V) → IsClean o.fields → IsClean (read_pcc v o).fields
  unfolding read_pcc put
  IsClean-read_pcc none o h = h
  IsClean-read_pcc (some v) o h = elim (Bool-cases (F.is_finite v)) [
    | inl finite ↦ rw finite (
        IsClean-insert _ _ _ (positive_part_finite (F.neg v) (floats.negated v finite)) (
          IsClean-insert _ _ _ (positive_part_finite v finite)
            (IsClean-insert _ v o.fields finite h)))
    | inr other ↦
        rw (other, fields-reject ("power_kw" ∷ "grid_import_kw" ∷ "grid_export_kw" ∷ []) o) h
  ]

  read_numbers-IsClean : (payload : Reading V) → IsClean (read_numbers payload).fields
  unfolding read_numbers
  read_numbers-IsClean payload = IsClean-read_fields payload extended_numeric _ (
      IsClean-read_pcc _ _ (
        IsClean-read_output _ _
          (IsClean-accept _ _ _ (IsClean-read_fields payload canonical_fields _ zeros-IsClean))))

  IsClean-flatten :
      (m : Measurement V) (o : Out V) → IsClean o.fields → IsClean (flatten m o).fields
  unfolding flatten
  IsClean-flatten m o h = elim (Bool-cases (is_flattened m.measurement_type)) [
    | inr other ↦ rw (other, flatten) h
    | inl field ↦ elim (Bool-cases (F.is_finite m.value)) [
      | inl finite ↦
          rw (field, finite, flatten) (IsClean-insert m.measurement_type m.value o.fields finite h)
      | inr other ↦ rw (field, other, flatten) h
    ]
  ]

  IsClean-flatten_all :
      (ms : List (Measurement V)) (o : Out V) → IsClean o.fields → IsClean (flatten_all ms o).fields
  unfolding flatten_all
  IsClean-flatten_all [] o h = h
  IsClean-flatten_all (m ∷ ms) o h = IsClean-flatten_all ms (flatten m o) (IsClean-flatten m o h)

  IsPosted-persist :
      (b : Body V) (s : State V)
      → IsClean b.fields
      → IsPosted s.posted
      → IsPosted (persist b s).posted
  unfolding persist
  IsPosted-persist b s clean h = All-append (λ b. IsClean b.fields) s.posted (b ∷ []) h (clean, tt)

  IsPosted-take :
      (o : Outcome (Envelope V)) (s : State V)
      → IsPosted s.posted
      → IsPosted (take_envelope o s).posted
  unfolding take_envelope accept_envelope count envelope_to_legacy_body
  IsPosted-take (err e) s h = h
  IsPosted-take (ok e) s h = by_check (is_duplicate_envelope (dedup_key e) s.seen)
    where
      by_check : (r : Bool × List Key) → IsPosted (accept_envelope e r s).posted
      by_check (true, seen) = h
      by_check (false, seen) =
          IsPosted-persist _ _ (IsClean-flatten_all e.measurements _ zeros-IsClean) h

  module _ (p : Parser) (fresh_uuid : String) (str : Scalar V → String) where
    IsPosted-handle :
        (topic : String) (m : Payload V) (s : State V)
        → IsPosted s.posted
        → IsPosted (handle_message p fresh_uuid str topic m s).posted
    unfolding handle_message count flat_body
    IsPosted-handle topic unparseable s h = h
    IsPosted-handle topic not_object s h = h
    IsPosted-handle topic (enveloped d) s h = IsPosted-take (from_dict p fresh_uuid d) s h
    IsPosted-handle topic (flat payload) s h = IsPosted-persist _ s (read_numbers-IsClean payload) h

    -- Whatever messages come, if what was posted before is so, every body that the ingestor posts has
    -- all canonical fields, and these and its extended numeric fields, the typed columns, are finite, if
    -- 0.0 is and the negation of a finite number. This is not so of the long tail under `extra` and of
    -- the time, which a flat reading brings along as they are.
    pub handle_all-IsPosted :
        (ms : List (String × Payload V)) (s : State V)
        → IsPosted s.posted
        → IsPosted (handle_all p fresh_uuid str ms s).posted
    unfolding handle_all
    handle_all-IsPosted [] s h = h
    handle_all-IsPosted ((topic, m) ∷ ms) s h =
        handle_all-IsPosted ms _ (IsPosted-handle topic m s h)
