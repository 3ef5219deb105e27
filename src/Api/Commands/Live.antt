-- ===== src/Api/Commands/Live.antt =====
-- `live_status` of `get_command` against the table: right where each handler finishes its writes before
-- another statement runs, and out of date where a handler is overtaken.
use diep_lab.Base.{
  ℕ, String, true, Option, none, some, List, [], ◌∷◌, ◌≡◌, refl, ap, inl, inr, string_eq,
  Bool-cases, arith,
}
use diep_lab.Base.Dict.{Dict, lookup, lookup-insert, lookup-insert_self}
use diep_lab.Base.Result.{Result, ok, err}
use diep_lab.Base.Text.{upper}
use diep_lab.Controls.{Principal, role_allowed}
use diep_lab.Api.Commands.Records.{
  Status, sent, acked, Device, Command, CommandRequest, Mirror, Write, to_mirror, to_twin, Twin,
  State, Event, create, published, publish_failed, ack, write, lose,
}
use diep_lab.Api.Commands.{
  ack_status, merge_error, apply, admit, new_command, store, insert_fresh, insert_pending,
  mark_sent, mark_failed, mark_answered, make, step, run, live_of, live_status,
}

abbrev pub mirror_status : Option Mirror → Option Status
mirror_status none = none
mirror_status (some m) = some m.status

merge_status : (o : Option Mirror) (m : Mirror) → (merge_error o m).status ≡ m.status
unfolding merge_error
merge_status none m = refl
merge_status (some old) m = ground arith

module _ {J : Type 0} where
  abbrev pub command_status : Option (Command J) → Option Status
  command_status none = none
  command_status (some c) = some c.status

  -- The status in the table.
  abbrev pub row_status : String → State J → Option Status
  row_status id s = command_status (lookup id s.commands)

  unfoldable pub apply_all : List Write → State J → State J
  apply_all [] s = s
  apply_all (w ∷ ws) s = apply_all ws (apply w s)

  -- The handler makes its writes before anything else happens.
  unfoldable pub settle : State J → State J
  settle s = apply_all s.waiting (record s { waiting = [] })

  unfoldable pub run_serial : List (Event J) → State J → State J
  run_serial [] s = s
  run_serial (e ∷ es) s = run_serial es (settle (step e s))

  -- No commands yet.
  abbrev pub start : Dict String Device → State J
  start devices = record { devices = devices; commands = []; mirror = []; twins = []; waiting = [] }

  -- Nothing waits, and the mirror tells of each command what the table does.
  pub record Agrees (s : State J) : Type 0 where
    pub settled : s.waiting ≡ []
    pub same : (id : String) → mirror_status (lookup id s.mirror) ≡ row_status id s

  Agrees-store :
      (d : String) (c : Command J) (m : Mirror) (s : State J)
      → c.status ≡ m.status
      → Agrees s
      → Agrees (settle (store d c (to_mirror d m ∷ []) s))
  unfolding settle apply_all apply store
  Agrees-store d c m s e h = rw h.settled (record {
    settled = refl;
    same = λ id. ground (
      arith,
      lookup-insert id d (merge_error (lookup d s.mirror) m) s.mirror,
      lookup-insert id d c s.commands,
      merge_status (lookup d s.mirror) m,
      h.same id,
    );
  })

  -- The same where the handler also writes to the twin.
  Agrees-store_twin :
      (d k : String) (c : Command J) (m : Mirror) (t : Twin) (s : State J)
      → c.status ≡ m.status
      → Agrees s
      → Agrees (settle (store d c (to_mirror d m ∷ to_twin k t ∷ []) s))
  unfolding settle apply_all apply store
  Agrees-store_twin d k c m t s e h = rw h.settled (record {
    settled = refl;
    same = λ id. ground (
      arith,
      lookup-insert id d (merge_error (lookup d s.mirror) m) s.mirror,
      lookup-insert id d c s.commands,
      merge_status (lookup d s.mirror) m,
      h.same id,
    );
  })

  Agrees-settle : (s : State J) → Agrees s → Agrees (settle s)
  unfolding settle apply_all
  Agrees-settle s h = rw h.settled (record { settled = refl; same = h.same })

  Agrees-insert :
      (d : String) (r : CommandRequest J) (a : Result ℕ Device) (s : State J)
      → Agrees s
      → Agrees (settle (insert_pending d r a s))
  unfolding insert_pending insert_fresh
  Agrees-insert d r (err code) s h = Agrees-settle s h
  Agrees-insert d r (ok device) s h = by_row (lookup d s.commands)
    where
      by_row : (o : Option (Command J)) → Agrees (settle (insert_fresh d r device o s))
      by_row (some old) = Agrees-settle s h
      by_row none = Agrees-store d _ _ s refl h

  Agrees-step : (e : Event J) (s : State J) → Agrees s → Agrees (settle (step e s))
  unfolding step mark_sent mark_failed mark_answered make
  Agrees-step (create p d r) s h = Agrees-insert d r (admit p r (lookup r.device_id s.devices)) s h
  Agrees-step (published d) s h = by_row (lookup d s.commands)
    where
      by_row : (o : Option (Command J)) → Agrees (settle (mark_sent d o s))
      by_row none = Agrees-settle s h
      by_row (some c) = Agrees-store_twin d _ _ _ _ s refl h
  Agrees-step (publish_failed d e) s h = by_row (lookup d s.commands)
    where
      by_row : (o : Option (Command J)) → Agrees (settle (mark_failed d e o s))
      by_row none = Agrees-settle s h
      by_row (some c) = Agrees-store d _ _ s refl h
  Agrees-step (ack p d status error) s h =
      elim (Bool-cases (role_allowed p.role ("service" ∷ []))) [
        | inr refused ↦ rw refused (Agrees-settle s h)
        | inl may ↦ rw may (by_row (ack_status (upper status)) (lookup d s.commands))
      ]
    where
      by_row :
          (status : Option Status) (o : Option (Command J))
          → Agrees (settle (mark_answered d status error o s))
      by_row status none = Agrees-settle s h
      by_row none (some c) = Agrees-settle s h
      by_row (some status) (some c) = Agrees-store_twin d _ _ _ _ s refl h
  Agrees-step (write n) s h =
      rw h.settled (Agrees-settle _ (record { settled = refl; same = h.same }))
  Agrees-step (lose n) s h =
      rw h.settled (Agrees-settle _ (record { settled = refl; same = h.same }))

  Agrees-run_serial : (es : List (Event J)) (s : State J) → Agrees s → Agrees (run_serial es s)
  unfolding run_serial
  Agrees-run_serial [] s h = h
  Agrees-run_serial (e ∷ es) s h = Agrees-run_serial es _ (Agrees-step e s h)

  live_of-same :
      (o : Option (Command J)) (m : Option Mirror)
      → mirror_status m ≡ command_status o
      → live_of o m ≡ command_status o
  unfolding live_of
  live_of-same none m h = refl
  live_of-same (some c) none h = refl
  live_of-same (some c) (some m) h = h

  Agrees-live_status : (id : String) (s : State J) → Agrees s → live_status id s ≡ row_status id s
  unfolding live_status
  Agrees-live_status id s h = live_of-same (lookup id s.commands) (lookup id s.mirror) (h.same id)

  -- In a run on empty tables in which each statement's writes to Redis are made before anything else
  -- happens, the live status of every command is the status in the table.
  pub live_status-serial :
      (devices : Dict String Device) (es : List (Event J)) (id : String)
      → live_status id (run_serial es (start devices))
        ≡ row_status id (run_serial es (start devices))
  unfolding lookup
  live_status-serial devices es id =
      Agrees-live_status id _
        (Agrees-run_serial es (start devices) (record { settled = refl; same = λ id. refl }))

  -- The schedule of a device that answers while the dispatch waits for its last write.
  abbrev pub overtaken : Principal → Principal → String → CommandRequest J → List (Event J)
  overtaken p q id r =
      create p id r
      ∷ write 0
      ∷ published id
      ∷ ack q id "ACKED" none
      ∷ write 2
      ∷ write 2
      ∷ write 0
      ∷ write 0
      ∷ []

  -- For every admitted command with a fresh UUID, if the device answers after the dispatch has marked
  -- it SENT and before the dispatch writes that to Redis, the table says ACKED and the live status SENT,
  -- with no write left to correct it.
  pub live_status-overtaken :
      (p q : Principal) (id : String) (r : CommandRequest J) (d : Device) (s : State J)
      → s.waiting ≡ []
      → lookup id s.commands ≡ none
      → admit p r (lookup r.device_id s.devices) ≡ ok d
      → role_allowed q.role ("service" ∷ []) ≡ true
      → (row_status id (run (overtaken p q id r) s) ≡ some acked)
        × (live_status id (run (overtaken p q id r) s) ≡ some sent)
        × ((run (overtaken p q id r) s).waiting ≡ [])
  unfolding run step insert_pending insert_fresh store mark_sent mark_answered new_command make
      apply ack_status upper string_eq live_status live_of
  live_status-overtaken p q id r d s settled fresh admitted may =
      rw (admitted, fresh, settled)
        (simp (lookup-insert_self, may) (refl, ap some (merge_status _ _), refl))
