-- ===== src/Mdm/Duplicates.antt =====
-- services/mdm/duplicates.py: `_BoundedSet` and `DuplicateDetector`.
pub mod Retention
pub mod Detection
use diep_lab.Base.{
  ℕ, zero, suc, String, Bool, true, false, List, [], ◌∷◌, ◌++◌, ◌||◌, ◌==◌, contains, Eq, string_eq,
  nat_eq, pair_eq, length, ltb, if◌then◌else◌,
}
use diep_lab.Contracts.Envelope.{Envelope}
use diep_lab.Contracts.Decode.{dedup_key}

-- `popitem(last=False)`: the entry that was inserted first goes.
abbrev pub pop_first {ℓ} : {A : Type ℓ} → List A → List A
pop_first [] = []
pop_first (_ ∷ xs) = xs

module _ {K : Type 0} ⦃e : Eq K⦄ where
  -- `self._store[key] = None` on an OrderedDict: a key that is there keeps its place.
  unfoldable pub touch : K → List K → List K
  touch k store = if contains store k then store else store ++ k ∷ []

  -- `_BoundedSet.add`; the set is its store, the oldest key first.
  unfoldable pub add : ℕ → K → List K → List K
  add max_size k store =
      let store' = touch k store in
      if ltb max_size (length store') then pop_first store' else store'

abbrev pub Key : Type 0
Key = String × (String × (String × ℕ))

pub record Detector : Type 0 where
  pub policy : String
  pub cache_size : ℕ
  pub keys : List Key
  pub correlation_ids : List String

abbrev pub policy_key_only : String
policy_key_only = "key_only"

abbrev pub policy_correlation_only : String
policy_correlation_only = "correlation_only"

-- Every other text is read as POLICY_ANY.
unfoldable pub decide_duplicate : String → Bool → Bool → Bool
decide_duplicate policy key_dup corr_dup =
    if policy == policy_key_only
    then key_dup
    else if policy == policy_correlation_only
    then corr_dup
    else key_dup || corr_dup

-- `DuplicateCheckResult`
pub record DuplicateCheck : Type 0 where
  pub is_duplicate : Bool
  pub matched_on : List String

module _ {V : Type 0} where
  -- The writes of `check_and_record`, which are made whatever the verdict is.
  unfoldable pub record_seen : Envelope V → Detector → Detector
  record_seen e d = record d {
    keys = add d.cache_size (dedup_key e) d.keys;
    correlation_ids = add d.cache_size e.correlation_id d.correlation_ids;
  }

  -- `DuplicateDetector.check_and_record`
  unfoldable pub check_and_record : Envelope V → Detector → DuplicateCheck × Detector
  check_and_record e d =
      let key_dup = contains d.keys (dedup_key e) in
      let corr_dup = contains d.correlation_ids e.correlation_id in
      (
        record {
          is_duplicate = decide_duplicate d.policy key_dup corr_dup;
          matched_on =
              (if key_dup then "timestamp_sequence" ∷ [] else [])
              ++ (if corr_dup then "correlation_id" ∷ [] else []);
        },
        record_seen e d,
      )
