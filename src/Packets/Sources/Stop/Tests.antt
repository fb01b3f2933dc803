-- ===== src/Packets/Sources/Stop/Tests.antt =====
-- Runs of the sources of src/packets that are interrupted.
use packetpipe.Common.{◌≡◌, refl, true, false}
use packetpipe.Packets.Sources.Stop.{
  live, looping, closed, destroyed, valid, freed, idle, Capture, constructed, opens, is_set,
  dispatches, dispatch_fails, releases, destroys_freed, finds_null, dangles, Reach, Alone,
}
use packetpipe.Packets.Sources.Stop.Reached.{Endless, Stops-Endless}

-- One call ends the loop, another has tested the pointer when the handle is closed.
abbrev too_late : Capture
too_late = record { phase = closed; handle = freed; broken = false; stop = idle; faulted = true }

-- A capture ended by an error of `pcap_dispatch`, and a call after the destructor.
abbrev ended : Capture
ended = record constructed { phase = destroyed; faulted = true }

ended_reached : Reach live constructed ended
ended_reached =
    Reach.stops
      (Reach.runs
        (Reach.runs
          (Reach.runs (Reach.runs (Reach.runs Reach.here (opens refl)) (is_set refl))
            (dispatch_fails refl refl))
          (releases refl))
        (destroys_freed refl))
      (dangles refl)

abbrev capturing : Capture
capturing = record constructed { phase = looping; handle = valid }

Stops-Endless_example : (constructed ≡ constructed) × Endless capturing
Stops-Endless_example =
    Stops-Endless constructed constructed capturing Reach.here refl (finds_null refl refl)
      (Alone.runs (Alone.runs (Alone.runs Alone.here (opens refl)) (is_set refl)) (dispatches refl))
