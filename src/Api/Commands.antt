-- ===== src/Api/Commands.antt =====
-- fastapi/app.py: the life of a command, between the table `commands` and its mirror in Redis. An
-- endpoint is cut where others can come between: at the commits of its SQL statements and at its writes
-- to Redis. The statements are events, and the writes wait until an event makes or loses them. The
-- responses but for the admission, times, the audit trail, the rate limit and the metrics are left out.
pub mod Records
pub mod Terminal
pub mod Live
use diep_lab.Base.{
  ℕ, zero, suc, String, Bool, true, false, not, Option, none, some, List, [], ◌∷◌, ◌++◌, ◌==◌,
  contains, string_eq, ◌<>◌, if◌then◌else◌,
}
use diep_lab.Base.Dict.{Dict, lookup, insert}
use diep_lab.Base.Result.{Result, ok, err}
use diep_lab.Base.Text.{upper}
use diep_lab.Controls.{Principal, role_allowed}
use diep_lab.Api.Commands.Records.{
  Status, pending, sent, acked, failed, completed, Device, Command, CommandRequest, Mirror, Twin,
  Write, to_mirror, to_twin, State, Event, create, published, publish_failed, ack, write, lose,
}

abbrev pub allowed_commands : Dict String (List String)
allowed_commands =
    ("ev_charger", "start_charging" ∷ "stop_charging" ∷ "set_limit" ∷ [])
    ∷ (
      "battery",
      "charge" ∷ "discharge" ∷ "set_soc_target" ∷ "idle" ∷ "set_power_limit" ∷ "standby" ∷ [],
    )
    ∷ ("solar_inverter", "curtail" ∷ "set_limit" ∷ "resume" ∷ [])
    ∷ ("microgrid", "island" ∷ "grid_connect" ∷ "set_setpoint" ∷ [])
    ∷ ("smartmeter", "read_only" ∷ "remote_disconnect" ∷ "remote_connect" ∷ [])
    ∷ []

-- `_assert_tenant_access` raises.
unfoldable pub is_foreign_device : Option String → Option Device → Bool
is_foreign_device none d = false
is_foreign_device (some t) none = false
is_foreign_device (some t) (some d) = elim d.tenant_id [
  | none ↦ true
  | some owner ↦ not (owner == t)
]

-- Whether the type of the device, where it is known, has the command.
unfoldable pub is_allowed : Option String → String → Bool
is_allowed none c = true
is_allowed (some device_type) c = elim (lookup device_type allowed_commands) [
  | none ↦ true
  | some l ↦ contains l c
]

abbrev pub is_terminal : Status → Bool
is_terminal acked = true
is_terminal failed = true
is_terminal completed = true
is_terminal _ = false

-- The status of an acknowledgement, by its text in capitals.
unfoldable pub ack_status : String → Option Status
ack_status s = if s == "ACKED" then some acked else if s == "FAILED" then some failed else none

-- The field `error` of the hash stays when a write has none.
unfoldable pub merge_error : Option Mirror → Mirror → Mirror
merge_error none m = m
merge_error (some old) m = elim m.error [ none ↦ record m { error = old.error } | some e ↦ m ]

unfoldable pub merge_twin : Option Twin → Twin → Twin
merge_twin none t = t
merge_twin (some old) t = elim t.last_command_error [
  | none ↦ record t { last_command_error = old.last_command_error }
  | some e ↦ t
]

abbrev pub without : ℕ → List Write → List Write
without n [] = []
without zero (w ∷ ws) = ws
without (suc n) (w ∷ ws) = w ∷ without n ws

abbrev pub nth : ℕ → List Write → Option Write
nth n [] = none
nth zero (w ∷ ws) = some w
nth (suc n) (w ∷ ws) = nth n ws

module _ {J : Type 0} where
  unfoldable pub apply : Write → State J → State J
  apply (to_mirror id m) s = record s {
    mirror = insert id (merge_error (lookup id s.mirror) m) s.mirror;
  }
  apply (to_twin d t) s = record s { twins = insert d (merge_twin (lookup d s.twins) t) s.twins }

  unfoldable pub admit_device : CommandRequest J → Option Device → Result ℕ Device
  admit_device r none = err 404
  admit_device r (some d) = if is_allowed d.device_type r.command_type then ok d else err 422

  -- The checks of `create_command` and `_dispatch_command`, in their order.
  unfoldable pub admit : Principal → CommandRequest J → Option Device → Result ℕ Device
  unfolding admit_device
  admit p r d =
      if not (role_allowed p.role ("operator" ∷ []))
      then err 403
      else if is_foreign_device p.tenant d
      then err 403
      else admit_device r d

  abbrev pub mirror_of : String → Command J → Write
  mirror_of id c = to_mirror id (record {
    status = c.status;
    device_id = c.device_id;
    command_type = c.command_type;
    error = c.error_message;
  })

  abbrev pub twin_of : String → Command J → Write
  twin_of id c = to_twin c.device_id (record {
    last_command_id = id;
    last_command_type = c.command_type;
    last_command_status = c.status;
    last_command_error = c.error_message;
  })

  -- An INSERT or UPDATE of the row, and what the handler writes to Redis behind it.
  unfoldable pub store : String → Command J → List Write → State J → State J
  store id c writes s = record s {
    commands = insert id c s.commands;
    waiting = s.waiting ++ writes;
  }

  unfoldable pub new_command : CommandRequest J → Device → Command J
  new_command r d = record {
    device_id = r.device_id;
    device_type = d.device_type;
    command_type = r.command_type;
    params = r.params;
    status = pending;
    issued_by = r.issued_by;
    error_message = none;
    dispatched = false;
    answered = false;
  }

  -- The INSERT is refused where the UUID is taken.
  unfoldable pub insert_fresh :
      String → CommandRequest J → Device → Option (Command J) → State J → State J
  insert_fresh id r d (some old) s = s
  insert_fresh id r d none s = let c = new_command r d in store id c (mirror_of id c ∷ []) s

  unfoldable pub insert_pending : String → CommandRequest J → Result ℕ Device → State J → State J
  insert_pending id r (err code) s = s
  insert_pending id r (ok d) s = insert_fresh id r d (lookup id s.commands) s

  unfoldable pub mark_sent : String → Option (Command J) → State J → State J
  mark_sent id none s = s
  mark_sent id (some c) s =
      let c' = record c {
        dispatched = true;
        status = if is_terminal c.status then c.status else sent;
      } in
      store id c'
        (mirror_of id (record c' { error_message = none })
          ∷ twin_of id (record c' { error_message = none })
          ∷ [])
        s

  unfoldable pub mark_failed : String → String → Option (Command J) → State J → State J
  mark_failed id e none s = s
  mark_failed id e (some c) s =
      let c' = record c { status = failed; error_message = some e } in
      store id (record c' { error_message = some ("kafka publish failed: " <> e) })
        (mirror_of id c' ∷ []) s

  unfoldable pub mark_answered :
      String → Option Status → Option String → Option (Command J) → State J → State J
  mark_answered id status error none s = s
  mark_answered id none error (some c) s = s
  mark_answered id (some status) error (some c) s =
      let c' = record c { status = status; error_message = error; answered = true } in
      store id c' (mirror_of id c' ∷ twin_of id c' ∷ []) s

  unfoldable pub make : Option Write → State J → State J
  make none s = s
  make (some w) s = apply w s

  unfoldable pub step : Event J → State J → State J
  step (create p id r) s = insert_pending id r (admit p r (lookup r.device_id s.devices)) s
  step (published id) s = mark_sent id (lookup id s.commands) s
  step (publish_failed id e) s = mark_failed id e (lookup id s.commands) s
  step (ack p id status error) s =
      if role_allowed p.role ("service" ∷ [])
      then mark_answered id (ack_status (upper status)) error (lookup id s.commands) s
      else s
  step (write n) s = make (nth n s.waiting) (record s { waiting = without n s.waiting })
  step (lose n) s = record s { waiting = without n s.waiting }

  unfoldable pub run : List (Event J) → State J → State J
  run [] s = s
  run (e ∷ es) s = run es (step e s)

  unfoldable pub live_of : Option (Command J) → Option Mirror → Option Status
  live_of none m = none
  live_of (some c) none = some c.status
  live_of (some c) (some m) = some m.status

  -- `live_status` of `get_command`: the mirror's, where there is one.
  unfoldable pub live_status : String → State J → Option Status
  live_status id s = live_of (lookup id s.commands) (lookup id s.mirror)
