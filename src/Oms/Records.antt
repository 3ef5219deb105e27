-- ===== src/Oms/Records.antt =====
-- fastapi/routers/oms.py: the tables of the outage management, and what a sweep reads of the others.
use diep_lab.Base.{ℕ, String, Option, List}
use diep_lab.Base.Dict.{Dict}
use diep_lab.Base.Int.{ℤ}

pub data CaseStatus : Type 0 where
  detected confirmed restored closed : CaseStatus

-- A row of `outage_cases`.
pub record Case : Type 0 where
  pub status : CaseStatus
  pub cause : String
  pub node : Option String
  pub customers_affected : ℕ
  pub notes : Option String

pub data ReportStatus : Type 0 where
  new linked dismissed : ReportStatus

-- A row of `outage_reports`.
pub record Report : Type 0 where
  pub customer_id : Option String
  pub meter_device_id : Option String
  pub node_id : Option String
  pub status : ReportStatus
  pub case_id : Option String

-- A row of `outage_case_meters`, by the key of its case and meter.
abbrev pub Link : Type 0
Link = (String × String) × Option String

-- The tables, in the order of insertion, and the number of UUIDs drawn so far.
pub record Tables : Type 0 where
  pub cases : Dict String Case
  pub meters : Dict (String × String) (Option String)
  pub reports : Dict String Report
  pub drawn : ℕ

-- The latest telemetry of a meter: its state, and its age in microseconds.
pub record Reading : Type 0 where
  pub state : Option String
  pub age : ℤ

-- The smart meters and their latest telemetry, where meters and customers are connected, the parents
-- of the grid nodes, the nodes that a switchable edge feeds, and the service points of each section.
pub record Grid : Type 0 where
  pub meters : List String
  pub latest : String → Option Reading
  pub meter_node : String → Option String
  pub customer_node : String → Option String
  pub parent : Dict String (Option String)
  pub switch_fed : List String
  pub service_points : String → ℕ
  pub timeout : ℤ

-- The outage signals of a section: its meters with their nodes, and the causes.
pub record Group : Type 0 where
  pub meters : Dict String (Option String)
  pub causes : List String

-- A sweep that comes to its end, or stops at a statement that the database refuses. Each statement
-- before it has been committed.
pub data Sweep : Type 0 where
  swept stopped : Tables → Sweep
