-- ===== src/Mdm/Enrichment.antt =====
-- services/mdm/enrichment.py: `DeviceMetadataEnricher`. The two fetchers read the database; they are
-- parameters, as they are of the constructor.
pub mod Lineage
use diep_lab.Base.{ℕ, zero, suc, String, Option, none, some, ◌==◌, string_eq, if◌then◌else◌}
use diep_lab.Base.Dict.{Dict, lookup, insert}
use diep_lab.Base.Float.{FloatOps}
use diep_lab.Contracts.Measurement.{is_nonempty}

pub record DeviceRow : Type 0 where
  pub device_type : Option String
  pub site_name : Option String
  pub tenant_id : Option String

pub record GridNode : Type 0 where
  pub node_id : String
  pub node_type : String
  pub parent_id : Option String

pub record DeviceMetadata : Type 0 where
  pub device_id : String
  pub tenant_id : Option String
  pub site_id : Option String
  pub device_type : Option String
  pub asset_class : Option String
  pub feeder_id : Option String
  pub transformer_id : Option String

-- `row.get(field)` on `row or {}`
abbrev pub row_field : Option DeviceRow → (DeviceRow → Option String) → Option String
row_field none field = none
row_field (some row) field = field row

-- `if not parent_id: return None`
unfoldable pub parent_of : GridNode → Option String
parent_of node = elim node.parent_id [
  | none ↦ none
  | some p ↦ if is_nonempty p then some p else none
]

module _ (fetch_grid_node : String → Option GridNode) where
  -- `self._fetch_grid_node(parent_id)`, where there is a parent.
  unfoldable pub fetch_parent : GridNode → Option GridNode
  fetch_parent node = elim (parent_of node) [ none ↦ none | some p ↦ fetch_grid_node p ]

  -- The `for` loop of `_walk_to_node_type`, by the hops that are left. A node that has no parent
  -- ends the walk as one whose parent is not found does.
  unfoldable pub walk_from : ℕ → String → Option GridNode → Option String
  walk_from zero target start = none
  walk_from (suc hops) target none = none
  walk_from (suc hops) target (some node) =
      let up = walk_from hops target (fetch_parent node) in
      if node.node_type == target then some node.node_id else up

  -- `_walk_to_node_type`
  unfoldable pub walk_to_node_type : ℕ → String → String → Option String
  walk_to_node_type max_hops start target = walk_from max_hops target (fetch_grid_node start)

abbrev pub Cache : Type 0 → Type 0
Cache V = Dict String (DeviceMetadata × V)

module _ {V : Type 0} ⦃F : FloatOps V⦄ (fetch_device_row : String → Option DeviceRow)
    (fetch_grid_node : String → Option GridNode) (max_hops : ℕ) (ttl_s : V) where
  -- What `enrich` reads from the database.
  unfoldable pub read_metadata : String → DeviceMetadata
  read_metadata device_id =
      let row = fetch_device_row device_id in
      record {
        device_id = device_id;
        tenant_id = row_field row (λ r. r.tenant_id);
        site_id = row_field row (λ r. r.site_name);
        device_type = row_field row (λ r. r.device_type);
        asset_class = row_field row (λ r. r.device_type);
        feeder_id = walk_to_node_type fetch_grid_node max_hops device_id "feeder";
        transformer_id = walk_to_node_type fetch_grid_node max_hops device_id "transformer";
      }

  -- `cached is not None and (time.monotonic() - cached[1]) < self.ttl_s`
  unfoldable pub fresh_entry : V → Option (DeviceMetadata × V) → Option DeviceMetadata
  fresh_entry now none = none
  fresh_entry now (some (meta, stored)) = if F.lt (F.sub now stored) ttl_s then some meta else none

  -- `enrich`; `now` and `later` are the two readings of the clock.
  unfoldable pub enrich : V → V → String → Cache V → DeviceMetadata × Cache V
  enrich now later device_id cache = elim (fresh_entry now (lookup device_id cache)) [
    | some meta ↦ (meta, cache)
    | none ↦ let meta = read_metadata device_id in (meta, insert device_id (meta, later) cache)
  ]
