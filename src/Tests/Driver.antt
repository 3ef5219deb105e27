-- ===== src/Tests/Driver.antt =====
-- Runs of the edge loop of a driver.
use diep_lab.Base.{◌≡◌, ◌+◌, ◌%◌, refl, String, true, some, List, [], ◌∷◌, length, string_eq, arith}
use diep_lab.Driver.Iec104.{Bytes, Peer, serve, send_all}
use diep_lab.Driver.Iec104.Session.{serve-send_all}
use diep_lab.Driver.{Runner, publish_telemetry, take_sequence}
use diep_lab.Driver.Buffer.{go_offline, publish_telemetry-reconnect}
use diep_lab.Driver.Sequence.{take_all, times, take_sequence-counts}

abbrev runner : Runner
runner = record { buffer_size = 2; buffer = "a" ∷ []; published = "p" ∷ [] }

publish_telemetry-reconnect_example :
    let r = publish_telemetry true "d" (go_offline ("b" ∷ "c" ∷ []) runner) in
    (r.published ≡ "p" ∷ "b" ∷ "c" ∷ "d" ∷ []) × (r.buffer ≡ [])
publish_telemetry-reconnect_example =
    publish_telemetry-reconnect ("b" ∷ "c" ∷ []) "d" runner (omega arith)

abbrev run : List String
run = "m1" ∷ "m2" ∷ "m1" ∷ []

take_sequence-counts_example : (take_sequence "m1" (take_all run [])).0 ≡ times "m1" run
take_sequence-counts_example = take_sequence-counts run "m1"

-- The last number before the counters start again.
abbrev sender : Peer
sender = record { ns = 32767; nr = 3; written = [] }

abbrev receiver : Peer
receiver = record { ns = 3; nr = 32767; written = [] }

abbrev asdus : List Bytes
asdus = (100 ∷ 1 ∷ []) ∷ [] ∷ []

serve-send_all_example :
    (p' : Peer) × (send_all asdus sender ≡ some p')
    × ((q' : Peer) × (serve (length p'.written) p'.written receiver ≡ (asdus, q'))
        × (q'.nr ≡ p'.ns)
        × (p'.ns ≡ (sender.ns + length asdus) % 32768))
serve-send_all_example =
    serve-send_all asdus sender receiver (omega arith, (omega arith, tt)) refl (omega arith)
      (omega arith) refl
