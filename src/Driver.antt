-- ===== src/Driver.antt =====
-- drivers/diep_driver/runner.py: the edge loop of a driver, as far as it keeps state: the buffer of
-- `_publish_telemetry`, the sequence numbers of `_build_envelope`, and the acknowledgements.
pub mod Buffer
pub mod Sequence
pub mod Iec104
pub mod Normalize
use diep_lab.Base.{
  ℕ, suc, ◌+◌, String, Bool, true, false, Option, none, some, List, [], ◌∷◌, ◌++◌, length, ltb,
  string_eq, if◌then◌else◌,
}
use diep_lab.Base.Dict.{Dict, lookup, insert}
use diep_lab.Contracts.Measurement.{default}

-- `buffer_size`, the deque with the oldest message first, and the messages published so far.
pub record Runner : Type 0 where
  pub buffer_size : ℕ
  pub buffer : List String
  pub published : List String

abbrev pub pop_left : List String → List String
pop_left [] = []
pop_left (_ ∷ xs) = xs

-- `deque(maxlen=n).append(message)`: a full deque drops its oldest entry.
unfoldable pub push : ℕ → String → List String → List String
push n message buffer =
    let longer = buffer ++ message ∷ [] in if ltb n (length longer) then pop_left longer else longer

-- `while self._buffer: publish(popleft())`, on what has been published.
unfoldable pub replay : List String → List String → List String
replay [] published = published
replay (x ∷ xs) published = replay xs (published ++ x ∷ [])

-- `_publish_telemetry`; `connected` is the state of the transport at the call.
unfoldable pub publish_telemetry : Bool → String → Runner → Runner
publish_telemetry true message r = record r {
  buffer = [];
  published = replay r.buffer r.published ++ message ∷ [];
}
publish_telemetry false message r = record r { buffer = push r.buffer_size message r.buffer }

-- `_envelope_seq.get(device_id, 0)` and the write behind it: the number and the new dict.
unfoldable pub take_sequence : String → Dict String ℕ → ℕ × Dict String ℕ
take_sequence device_id seqs =
    let seq = default 0 (lookup device_id seqs) in (seq, insert device_id (seq + 1) seqs)

-- How `execute_command` ends.
pub data Execution : Type 0 where
  returned : (status : String) → (error : Option String) → Execution
  not_implemented : Execution
  raised : (message : String) → Execution

pub record Ack : Type 0 where
  pub command_id : Option String
  pub device_id : String
  pub status : String
  pub error : Option String

-- The acknowledgement of `_on_command`, for the id in the payload, without its time of day.
unfoldable pub ack_of : String → Option String → Execution → Ack
ack_of device_id command_id (returned status error) = record {
  command_id = command_id;
  device_id = device_id;
  status = status;
  error = error;
}
ack_of device_id command_id not_implemented = record {
  command_id = command_id;
  device_id = device_id;
  status = "FAILED";
  error = some "driver not yet implemented";
}
ack_of device_id command_id (raised message) = record {
  command_id = command_id;
  device_id = device_id;
  status = "FAILED";
  error = some message;
}
