-- ===== src/Manager/Steps/OnePod.antt =====
-- No image is given to two pods at a time, whatever the order of the events.
use oc_mirror_operator.Base.{String, Bool, true, false, none, some, ◌||◌}
use oc_mirror_operator.Base.Dict.{Dict}
use oc_mirror_operator.Manager.State.{MirrorManager}
use oc_mirror_operator.Manager.Reports.Queue.{reported_in}
use oc_mirror_operator.Manager.Workers.{finished_workers}
use oc_mirror_operator.Manager.Steps.{Event, drain, cleanup, recover}
use oc_mirror_operator.Manager.Steps.Held.{ended}

-- the event may end that a pod works on the destination: a report on it is drained, a cleanup finds
-- its pod finished, gone or stuck, or the manager starts again
abbrev pub frees : String → Event → MirrorManager → Bool
frees dest (drain ticks) m = reported_in dest m.status_queue
frees dest (cleanup ticks none snapshot) m = false
frees dest (cleanup ticks (some pods) snapshot) m =
    reported_in dest m.status_queue || ended dest (finished_workers (ticks 0).now pods snapshot)
frees dest (recover pods) m = true
frees dest event m = false
