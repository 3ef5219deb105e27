-- ===== src/Mdm/Duplicates/Detection.antt =====
-- `DuplicateDetector`: which envelopes are reported.
use diep_lab.Base.{
  ◌≤◌, ◌<◌, ◌≡◌, ◌≢◌, refl, sym, ◌∙◌, true, false, List, [], ◌∷◌, map, contains, string_eq, pair_eq,
  nat_eq, length, length-map, arith,
}
use diep_lab.Contracts.Envelope.{Envelope}
use diep_lab.Contracts.Decode.{dedup_key}
use diep_lab.Mdm.Duplicates.{
  Detector, policy_correlation_only, decide_duplicate, record_seen, check_and_record,
}
use diep_lab.Mdm.Duplicates.Retention.{add_all, add_all-retains, length-add}

-- Both sets are within the size that they were made with.
pub record IsBounded (d : Detector) : Type 0 where
  pub keys : length d.keys ≤ d.cache_size
  pub correlation_ids : length d.correlation_ids ≤ d.cache_size

module _ {V : Type 0} where
  -- The detector after a run of calls.
  unfoldable pub check_all : List (Envelope V) → Detector → Detector
  check_all [] d = d
  check_all (e ∷ es) d = check_all es (check_and_record e d).1

  -- Every call keeps both caches within their bound, whatever its verdict is.
  pub check_and_record-IsBounded :
      (e : Envelope V) (d : Detector) → IsBounded d → IsBounded (check_and_record e d).1
  unfolding check_and_record record_seen
  check_and_record-IsBounded e d b = record {
    keys = length-add d.cache_size (dedup_key e) d.keys b.keys;
    correlation_ids = length-add d.cache_size e.correlation_id d.correlation_ids b.correlation_ids;
  }

  keys-check_all :
      (es : List (Envelope V)) (d : Detector)
      → (check_all es d).keys ≡ add_all d.cache_size (map dedup_key es) d.keys
  unfolding check_all check_and_record record_seen add_all
  keys-check_all [] d = refl
  keys-check_all (e ∷ es) d = keys-check_all es (record_seen e d)

  policy-check_all : (es : List (Envelope V)) (d : Detector) → (check_all es d).policy ≡ d.policy
  unfolding check_all check_and_record record_seen
  policy-check_all [] d = refl
  policy-check_all (e ∷ es) d = policy-check_all es (record_seen e d)

  policy-check : (e : Envelope V) (d : Detector) → (check_and_record e d).1.policy ≡ d.policy
  unfolding check_and_record record_seen
  policy-check e d = refl

  -- A key that is there decides, with any policy but correlation_only.
  is_duplicate_of :
      (e : Envelope V) (d : Detector)
      → d.policy ≢ policy_correlation_only
      → contains d.keys (dedup_key e) ≡ true
      → (check_and_record e d).0.is_duplicate ≡ true
  unfolding check_and_record decide_duplicate
  is_duplicate_of e d policy seen = rw seen (ground arith)

  seen_after :
      (e : Envelope V) (d : Detector) (between : List (Envelope V))
      → IsBounded d
      → contains d.keys (dedup_key e) ≡ false
      → length between < d.cache_size
      → let after = (check_and_record e d).1 in
        contains (add_all after.cache_size (map dedup_key between) after.keys) (dedup_key e) ≡ true
  unfolding check_and_record record_seen
  seen_after e d between b new room =
      add_all-retains d.cache_size (dedup_key e) (map dedup_key between) d.keys b.keys new
        (rw (length-map dedup_key between) room)

  -- With any policy but correlation_only, an envelope whose key was new is reported when its key
  -- comes again, if fewer envelopes than the cache holds came between.
  pub check_and_record-redelivery :
      (e again : Envelope V) (between : List (Envelope V)) (d : Detector)
      → IsBounded d
      → d.policy ≢ policy_correlation_only
      → contains d.keys (dedup_key e) ≡ false
      → dedup_key again ≡ dedup_key e
      → length between < d.cache_size
      → (check_and_record again (check_all between (check_and_record e d).1)).0.is_duplicate ≡ true
  check_and_record-redelivery e again between d b policy new same room =
      let after = (check_and_record e d).1 in
      is_duplicate_of again (check_all between after)
        (λ h. policy (sym (policy-check_all between after ∙ policy-check e d) ∙ h))
        (rw (same, keys-check_all between after) (seen_after e d between b new room))

  -- What passes as new has a new key, with any policy but correlation_only.
  pub is_new→key_new :
      (e : Envelope V) (d : Detector)
      → d.policy ≢ policy_correlation_only
      → (check_and_record e d).0.is_duplicate ≡ false
      → contains d.keys (dedup_key e) ≡ false
  unfolding check_and_record decide_duplicate
  is_new→key_new e d policy new = ground arith
