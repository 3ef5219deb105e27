-- ===== src/Api/Commands/Terminal.antt =====
-- A command that has ended stays so, however the handlers come between one another.
use diep_lab.Base.{
  ℕ, String, Bool, true, false, Option, none, some, List, [], ◌∷◌, ◌≡◌, inl, inr, refl, sym, ap,
  ◌∙◌, string_eq, Bool-cases, arith,
}
use diep_lab.Base.Dict.{lookup, lookup-insert}
use diep_lab.Base.Result.{Result, ok, err}
use diep_lab.Base.Text.{upper}
use diep_lab.Controls.{role_allowed}
use diep_lab.Api.Commands.Records.{
  Status, Device, Command, CommandRequest, Write, to_mirror, to_twin, State, Event, create,
  published, publish_failed, ack, write, lose,
}
use diep_lab.Api.Commands.{
  is_terminal, ack_status, apply, admit, store, insert_fresh, insert_pending, mark_sent,
  mark_failed, mark_answered, nth, make, step, run,
}

abbrev is_end : Option Status → Bool
is_end none = true
is_end (some status) = is_terminal status

-- What an acknowledgement may say ends the command.
ack_status-ends : (text : String) → is_end (ack_status text) ≡ true
unfolding ack_status
ack_status-ends text = ground arith

module _ {J : Type 0} where
  abbrev pub is_ended : Option (Command J) → Bool
  is_ended none = false
  is_ended (some c) = is_terminal c.status

  -- The row of the command is there, and its status is terminal.
  abbrev pub HasEnded : String → State J → Type 0
  HasEnded id s = is_ended (lookup id s.commands) ≡ true

  HasEnded-store :
      (id d : String) (c : Command J) (writes : List Write) (s : State J)
      → (id ≡ d → is_terminal c.status ≡ true)
      → HasEnded id s
      → HasEnded id (store d c writes s)
  unfolding store
  HasEnded-store id d c writes s k ended = elim (string_eq.dec id d) [
    | yes same ↦ ground (arith, lookup-insert id d c s.commands, k same)
    | no other ↦ ground (arith, lookup-insert id d c s.commands)
  ]

  row_ended :
      (id d : String) (o : Option (Command J)) (s : State J)
      → lookup d s.commands ≡ o
      → id ≡ d
      → HasEnded id s
      → is_ended o ≡ true
  row_ended id d o s at same ended =
      sym (ap is_ended (ap (λ k. lookup k s.commands) same ∙ at)) ∙ ended

  HasEnded-insert_fresh :
      (id d : String) (r : CommandRequest J) (device : Device) (o : Option (Command J))
      (s : State J)
      → lookup d s.commands ≡ o
      → HasEnded id s
      → HasEnded id (insert_fresh d r device o s)
  unfolding insert_fresh
  HasEnded-insert_fresh id d r device (some old) s at ended = ended
  HasEnded-insert_fresh id d r device none s at ended =
      HasEnded-store id d _ _ s (λ same. cc (row_ended id d none s at same ended)) ended

  HasEnded-insert_pending :
      (id d : String) (r : CommandRequest J) (a : Result ℕ Device) (s : State J)
      → HasEnded id s
      → HasEnded id (insert_pending d r a s)
  unfolding insert_pending
  HasEnded-insert_pending id d r (err code) s ended = ended
  HasEnded-insert_pending id d r (ok device) s ended =
      HasEnded-insert_fresh id d r device (lookup d s.commands) s refl ended

  HasEnded-mark_sent :
      (id d : String) (o : Option (Command J)) (s : State J)
      → lookup d s.commands ≡ o
      → HasEnded id s
      → HasEnded id (mark_sent d o s)
  unfolding mark_sent
  HasEnded-mark_sent id d none s at ended = ended
  HasEnded-mark_sent id d (some c) s at ended =
      HasEnded-store id d _ _ s
        (λ same. let was = row_ended id d (some c) s at same ended in rw was was) ended

  HasEnded-mark_failed :
      (id d e : String) (o : Option (Command J)) (s : State J)
      → HasEnded id s
      → HasEnded id (mark_failed d e o s)
  unfolding mark_failed
  HasEnded-mark_failed id d e none s ended = ended
  HasEnded-mark_failed id d e (some c) s ended = HasEnded-store id d _ _ s (λ same. refl) ended

  HasEnded-mark_answered :
      (id d : String) (status : Option Status) (error : Option String) (o : Option (Command J))
      (s : State J)
      → is_end status ≡ true
      → HasEnded id s
      → HasEnded id (mark_answered d status error o s)
  unfolding mark_answered
  HasEnded-mark_answered id d status error none s ends ended = ended
  HasEnded-mark_answered id d none error (some c) s ends ended = ended
  HasEnded-mark_answered id d (some status) error (some c) s ends ended =
      HasEnded-store id d _ _ s (λ same. ends) ended

  HasEnded-make :
      (id : String) (w : Option Write) (s : State J) → HasEnded id s → HasEnded id (make w s)
  unfolding make apply
  HasEnded-make id none s ended = ended
  HasEnded-make id (some (to_mirror k m)) s ended = ended
  HasEnded-make id (some (to_twin d t)) s ended = ended

  HasEnded-step : (id : String) (e : Event J) (s : State J) → HasEnded id s → HasEnded id (step e s)
  unfolding step
  HasEnded-step id (create p d r) s ended =
      HasEnded-insert_pending id d r (admit p r (lookup r.device_id s.devices)) s ended
  HasEnded-step id (published d) s ended =
      HasEnded-mark_sent id d (lookup d s.commands) s refl ended
  HasEnded-step id (publish_failed d e) s ended =
      HasEnded-mark_failed id d e (lookup d s.commands) s ended
  HasEnded-step id (ack p d status error) s ended =
      elim (Bool-cases (role_allowed p.role ("service" ∷ []))) [
        | inl may ↦ rw may (
            HasEnded-mark_answered id d _ error (lookup d s.commands) s
              (ack_status-ends (upper status)) ended)
        | inr refused ↦ rw refused ended
      ]
  HasEnded-step id (write n) s ended = HasEnded-make id (nth n s.waiting) _ ended
  HasEnded-step id (lose n) s ended = ended

  -- A command that was acknowledged or has failed never goes back to PENDING or SENT, whatever order
  -- the statements of the handlers and their writes to Redis come in, lost writes included.
  pub run-HasEnded :
      (id : String) (es : List (Event J)) (s : State J) → HasEnded id s → HasEnded id (run es s)
  unfolding run
  run-HasEnded id [] s ended = ended
  run-HasEnded id (e ∷ es) s ended = run-HasEnded id es (step e s) (HasEnded-step id e s ended)
