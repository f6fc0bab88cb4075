-- ===== src/Trace/Tests.antt =====
-- Runs of crates/rusty_rtos_core/src/trace.rs: a run with the ticks of an idle time, and one that sleeps.
use rusty_rtos_core.Prelude.{◌≡◌, refl, List, [], ◌∷◌}
use rusty_rtos_core.Handle.{null}
use rusty_rtos_core.Trace.Event.{Event, is_suppressible}
use rusty_rtos_core.Trace.Sinks.{Report, CountTrace, count_trace, scheduling, report, run}
use rusty_rtos_core.Trace.Projection.{Projects, run-scheduling}

abbrev awake : List Report
awake =
    Report.happening 7 (Event.task_switched_out null "a")
    ∷ Report.happening 8 (Event.task_increment_tick 8)
    ∷ Report.exits 3
    ∷ Report.happening 9 (Event.task_switched_in null "b")
    ∷ []

abbrev asleep : List Report
asleep =
    Report.happening 7 (Event.task_switched_out null "a")
    ∷ Report.happening 7 Event.low_power_idle_begin
    ∷ Report.happening 9 Event.low_power_idle_end
    ∷ Report.exits 3
    ∷ Report.happening 9 (Event.task_switched_in null "b")
    ∷ []

abbrev zeros : CountTrace
zeros = record { events = 0; switches = 0; increments = 0 }

-- Both runs have two events that are no heartbeat.
count_awake : (run (scheduling count_trace) awake zeros).events ≡ 2
unfolding run report scheduling count_trace is_suppressible
count_awake = refl

count_asleep : (run (scheduling count_trace) asleep zeros).events ≡ 2
unfolding run report scheduling count_trace is_suppressible
count_asleep = refl

run-scheduling_example :
    (qs : List Report) × Projects awake qs
    × (run (scheduling count_trace) awake zeros ≡ run count_trace qs zeros)
run-scheduling_example = run-scheduling count_trace awake zeros
