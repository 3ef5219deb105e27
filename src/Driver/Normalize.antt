-- ===== src/Driver/Normalize.antt =====
-- drivers/diep_driver/normalize.py: `normalize_canonical`. A native reading is a dict of JSON scalars.
use diep_lab.Base.{
  String, ◌≡◌, ◌≢◌, true, contains, refl, ◌∙◌, ap, Option, none, some, List, [], ◌∷◌, string_eq,
  map, arith, inl, inr, Option-cases, if_pos, if_neg,
}
use diep_lab.Base.Dict.{Dict, lookup, insert, lookup-insert}
use diep_lab.Base.Float.{FloatOps}
use diep_lab.Contracts.Error.{Scalar, integer, float, boolean, text, null}

abbrev pub canonical_fields : List String
canonical_fields =
    "voltage" ∷ "current" ∷ "power_kw" ∷ "frequency" ∷ "solar_kw" ∷ "battery_soc" ∷ "grid_import_kw"
    ∷ "grid_export_kw" ∷ []

module _ {V : Type 0} ⦃F : FloatOps V⦄ where
  -- `_num`
  unfoldable pub num : Option (Scalar V) → Option V
  num (some (integer n)) = some (F.of_int n)
  num (some (float v)) = some v
  num (some (boolean _)) = none
  num (some (text _)) = none
  num (some null) = none
  num none = none

  -- `{field: 0.0 for field in CANONICAL_FIELDS}`
  unfoldable pub zeros : List String → Dict String V
  zeros [] = []
  zeros (f ∷ fs) = (f, F.decimal 0 1) ∷ zeros fs

  -- `out[field] = v`, where there is a value.
  unfoldable pub write : String → Option V → Dict String V → Dict String V
  write field none out = out
  write field (some v) out = insert field v out

  -- The loop over the canonical fields.
  unfoldable pub read_fields : Dict String (Scalar V) → List String → Dict String V → Dict String V
  read_fields native [] out = out
  read_fields native (f ∷ fs) out = read_fields native fs (write f (num (lookup f native)) out)

  -- `v is not None and canonical_key in out`
  unfoldable pub write_known : String → Option V → Option V → Dict String V → Dict String V
  write_known key none v out = out
  write_known key (some old) v out = write key v out

  -- The loop over the aliases: native key and canonical key.
  unfoldable pub read_aliases :
      Dict String (Scalar V) → List (String × String) → Dict String V → Dict String V
  read_aliases native [] out = out
  read_aliases native ((from, to) ∷ more) out =
      read_aliases native more (write_known to (lookup to out) (num (lookup from native)) out)

  -- `normalize_canonical`
  unfoldable pub normalize_canonical :
      Dict String (Scalar V) → List (String × String) → Dict String V
  normalize_canonical native aliases =
      read_aliases native aliases (read_fields native canonical_fields (zeros canonical_fields))

abbrev pub keys : {V : Type 0} → Dict String V → List String
keys d = map (λ e. e.0) d

keys-zeros : (V : Type 0) ⦃F : FloatOps V⦄ (fs : List String) → keys (zeros {V = V} fs) ≡ fs
unfolding zeros
keys-zeros V [] = refl
keys-zeros V (f ∷ fs) = ap (λ l. f ∷ l) (keys-zeros V fs)

module _ {V : Type 0} ⦃F : FloatOps V⦄ where
  -- A write to a key that is there leaves the keys.
  keys-insert :
      (k : String) (v old : V) (d : Dict String V)
      → lookup k d ≡ some old
      → keys (insert k v d) ≡ keys d
  unfolding lookup insert
  keys-insert k v old [] h = cc
  keys-insert k v old ((j, w) ∷ d) h = elim (string_eq.dec k j) [
    | yes same ↦ rw (if_pos _ same) refl
    | no other ↦
        rw (if_neg _ other) (ap (λ l. j ∷ l) (keys-insert k v old d (rw (if_neg _ other) at h)))
  ]

  keys-write_known :
      (k : String) (v : Option V) (d : Dict String V)
      → keys (write_known k (lookup k d) v d) ≡ keys d
  unfolding write_known write
  keys-write_known k v d = elim (Option-cases (lookup k d)) [
    | inl absent ↦ rw (absent, write_known) refl
    | inr (old, present) ↦ rw (present, write_known) (written v old present)
  ]
    where
      written : (v : Option V) (old : V) → lookup k d ≡ some old → keys (write k v d) ≡ keys d
      written none old h = refl
      written (some x) old h = keys-insert k x old d h

  keys-read_aliases :
      (native : Dict String (Scalar V)) (aliases : List (String × String)) (d : Dict String V)
      → keys (read_aliases native aliases d) ≡ keys d
  unfolding read_aliases
  keys-read_aliases native [] d = refl
  keys-read_aliases native ((from, to) ∷ more) d =
      keys-read_aliases native more _ ∙ keys-write_known to (num (lookup from native)) d

  keys-write :
      (k : String) (v : Option V) (d : Dict String V)
      → lookup k d ≢ none
      → keys (write k v d) ≡ keys d
  unfolding write
  keys-write k none d h = refl
  keys-write k (some v) d h = elim (Option-cases (lookup k d)) [
    | inl absent ↦ absurd (h absent)
    | inr (old, present) ↦ keys-insert k v old d present
  ]

  still_known :
      (k : String) (v : Option V) (d : Dict String V) (j : String)
      → lookup j d ≢ none
      → lookup j (write k v d) ≢ none
  unfolding write
  still_known k none d j h = h
  still_known k (some v) d j h = ground (arith, lookup-insert j k v d)

  keys-read_fields :
      (native : Dict String (Scalar V)) (fs : List String) (d : Dict String V)
      → ((f : String) → contains fs f ≡ true → lookup f d ≢ none)
      → keys (read_fields native fs d) ≡ keys d
  unfolding read_fields
  keys-read_fields native [] d known = refl
  keys-read_fields native (f ∷ fs) d known =
      keys-read_fields native fs _
        (λ g m. still_known f (num (lookup f native)) d g (known g (ground arith)))
      ∙ keys-write f (num (lookup f native)) d (known f (ground arith))

  zeros_known :
      (fs : List String) (f : String) → contains fs f ≡ true → lookup f (zeros {V = V} fs) ≢ none
  unfolding zeros lookup
  zeros_known [] f h = cc
  zeros_known (g ∷ fs) f h = ground (arith, zeros_known fs f)

  -- Whatever a native reading and the aliases hold, the canonical telemetry has exactly the canonical
  -- fields, in their order.
  pub keys-normalize_canonical :
      (native : Dict String (Scalar V)) (aliases : List (String × String))
      → keys (normalize_canonical native aliases) ≡ canonical_fields
  unfolding normalize_canonical
  keys-normalize_canonical native aliases =
      keys-read_aliases native aliases _
      ∙ keys-read_fields native canonical_fields (zeros canonical_fields)
          (zeros_known canonical_fields)
      ∙ keys-zeros V canonical_fields
