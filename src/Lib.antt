-- ===== src/Lib.antt =====
-- diep-lab: a verification library beside the Python code of a distributed energy platform.
--
-- The platform reads meters at the edge, sends their readings over MQTT, cleans them in a meter data
-- management service, and runs distribution management functions on a model of the grid. The library
-- follows a reading along that way, and then into the grid model:
--
--   drivers/dlms/protocol.py       Dlms (Bytes, Frame, Pdu, Scalars)
--   drivers/diep_driver/runner.py  Driver
--   drivers/microgrid_iec104/transport.py
--                                  Driver.Iec104 (Counters, Session)
--   contracts/quality.py, contracts/telemetry.py
--                                  Contracts (Quality, Error, Measurement, Envelope, Decode)
--   contracts/topics.py            Contracts.Topics
--   services/mdm/*.py              Mdm (Validation, Duplicates, Timestamps, Gaps, Units, Quality,
--                                  Enrichment, Pipeline), a module for each file
--   ingestor/telemetry_ingestor.py Ingest (Native)
--   fastapi/app.py                 Api (Onboarding, Commands)
--   fastapi/readiness.py           Api (Readiness)
--   fastapi/deployment.py          Api (Deployment)
--   fastapi/dms/contingency.py     Dms (Network, Search, Restore, Contingency)
--   fastapi/dms/reconfiguration.py Dms (Reconfiguration)
--   fastapi/dms/outage_inference.py
--                                  Dms (Inference)
--   fastapi/dms/outage_validation.py, fastapi/dms/crew_dispatch.py
--                                  Dms (Reports)
--   fastapi/routers/controls.py, fastapi/auth.py
--                                  Controls, Controls.Serve
--   fastapi/routers/automation.py  Automation
--   fastapi/routers/oms.py         Oms (Records, Signals, Cases)
--   drivers/diep_driver/normalize.py
--                                  Driver.Normalize
--   services/cim/units.py          Cim
--   services/opcua/browse_cache.py Opcua
--
-- Base holds what they share; the children of each module hold its proofs, and Tests runs the
-- development on concrete inputs.
--
-- How the code is translated. A class is a record of its state and its methods are functions that take
-- the state and return the new one; an exception is `err` of a Result or `none` of an Option, a dict is
-- an association list in insertion order, and a set that is only asked for its members is a list. The
-- constructors of contracts/telemetry.py take the fields of a decoded JSON object: each may be absent,
-- `value`, `quality` and `sequence_number` may have any scalar type, and the other fields have the type
-- that they are annotated with. The engines of services/mdm are called by `process` as in
-- services/mdm/pipeline.py; the state is the product of theirs, so the order in which they write is the
-- order of the calls. The published `mdm` block keeps the records of the engines whole, where the code
-- writes some of their fields.
--
-- A network model is the list of its node rows and that of its edge rows. The dict that `_restore`
-- shares between two lists is a position in the list of the edges. The power flow that the
-- reconfiguration and the N-1 analysis consult is a function that they take, and the set over which
-- the analysis adds up loads has the order of its list. Requests to the control plane are served one
-- after another on the two tables, and the log of the calls of `handler.execute` is kept beside them. The automation engine calls their handlers as functions.
--
-- The life of a command is cut where its handlers can come between one another: each SQL statement is
-- an event, and each write to Redis behind it waits in a list until another event makes it or loses it.
-- The endpoints of the onboarding, the ingestor's handler and the cutover are one step each, on tables
-- that are dicts by their key and lists in the order of insertion. What a probe or a read of another
-- table returned is an argument, with `none` for an exception that the code catches. A sweep of the outage
-- management is one step, during which the tables that it only reads stay the same. `str.upper` is that
-- of ASCII.
--
-- What is not read from the source is a parameter: `datetime.fromisoformat` and `isoformat`, `uuid`,
-- the database fetchers, the clock readings of a call, `struct.pack` of doubles (with its documented
-- round trip), and the arithmetic of Python's numbers (FloatOps), of which no law is assumed but where
-- a theorem names it. Its operations are total but for division and `round`: the OverflowError that
-- Python raises for an int beyond the floats is outside the model.
--
-- Bounds and fuel. The loop of `unframe` runs on the length of its buffer, of which each round
-- takes at least three bytes. The search over the network runs on the numbers of sources and of
-- nodes: a round takes one node off the stack, and each node is put there once. The rounds of the
-- restoration are two more than there are ties, since each but the last closes a tie for good. The
-- walk to the ancestors has the guard of the code, 1000 rounds. The walk to a section of the outage
-- management runs on two rounds more than there are grid nodes. The receiving loop of IEC 104 runs on
-- the number of bytes, of which each round takes at least two. All other loops are structural
-- recursion; the hops of the enricher are its own bound.
--
-- Not modelled: the clients of MQTT, Kafka, Redis and the database, HTTP handlers and SQL, the
-- solvers on floating-point matrices, the simulators, the portal, and the files of the deployment.
-- Of Api, the probes themselves, the parsers of Docker's and Prometheus' texts, and the handlers that
-- only read; of Ingest, the queue and the threads.
pub mod Base
pub mod Contracts
pub mod Mdm
pub mod Dlms
pub mod Driver
pub mod Dms
pub mod Tests
pub mod Controls
pub mod Opcua
pub mod Cim
pub mod Automation
pub mod Api
pub mod Ingest
pub mod Oms
