-- ===== src/Schedule/Registry/Tests.antt =====
-- Concrete runs of the scheduler.
use polarix.Prelude.{
  ◌≡◌, refl, ◌⊎◌, true, false, some, List, [], ◌∷◌, if◌then◌else◌, Text, str, same, trim_space,
  fields, split, contains_byte, pos, atoi,
}
use polarix.Schedule.Cron.{
  Clock, parse_cron, parse_field, parse_fields, parse_five, parse_part, parse_parts,
}
use polarix.Schedule.Registry.{
  Job, RegisteredJob, Scheduler, any_cron, cron_tick, exists, find, interval_loops, launch,
  new_scheduler, prepare, put, register, run_cron_loop, start, stop,
}
use polarix.Schedule.Registry.Jobs.{HasDistinctIds, IsAcceptable, register_cases}
use polarix.Schedule.Registry.Ticks.{cron_tick-IsDue}
use polarix.Schedule.Registry.Loops.{
  IsSound, Op, cancels, leaves, registers, run, run-IsSound, starts, stops,
}

abbrev daily : Job
daily = record {
  id = str "daily";
  plugin_id = str "p";
  cron = str "0 9 * * *";
  interval = pos 0;
  immediate = false;
  group_id = str "g";
  user_id = [];
  target = 0;
  handle = some 7;
}

abbrev one_job : Scheduler
one_job = register new_scheduler daily

abbrev nine : Clock
nine = record { minute = 0; hour = 9; day = 1; month = 2; weekday = 3 }

found_daily : exists one_job (str "daily") ≡ true
unfolding register exists prepare launch find put same parse_cron fields split trim_space
    contains_byte atoi new_scheduler parse_five parse_fields parse_field parse_parts parse_part
found_daily = refl

nameless_job : register new_scheduler (record daily { id = [] }) ≡ new_scheduler
unfolding register prepare
nameless_job = refl

one_job_distinct : HasDistinctIds one_job.jobs
unfolding register run
one_job_distinct = (run-IsSound (registers daily ∷ [])).distinct

register_cases_example :
    ((¬ IsAcceptable daily) × (register new_scheduler daily ≡ new_scheduler))
    ⊎ (IsAcceptable daily
        × HasDistinctIds (register new_scheduler daily).jobs
        × ((r : RegisteredJob) × (r.job ≡ daily)
            × ((id : Text)
                → find id (register new_scheduler daily).jobs
                  ≡ (if same (str "daily") id then some r else find id new_scheduler.jobs))))
unfolding new_scheduler run
register_cases_example = register_cases new_scheduler daily (run-IsSound []).distinct

cron_tick-IsDue_example :
    cron_tick (cron_tick one_job nine 100).0 nine 100 ≡ ((cron_tick one_job nine 100).0, [])
cron_tick-IsDue_example = (cron_tick-IsDue one_job nine 100).1

abbrev restarted : List Op
restarted =
    registers daily
    ∷ starts (some 1)
    ∷ stops
    ∷ leaves 0 false
    ∷ starts (some 1)
    ∷ cancels (str "daily")
    ∷ []

run-IsSound_example : IsSound (run new_scheduler restarted)
run-IsSound_example = run-IsSound restarted

-- A Start right after a Stop finds the old loop still there, on a channel that is open again.
two_cron_loops :
    (run new_scheduler (registers daily ∷ starts (some 1) ∷ stops ∷ starts (some 1) ∷ [])).loops
    ≡ run_cron_loop ∷ run_cron_loop ∷ []
unfolding run register prepare launch find put same parse_cron fields split trim_space contains_byte
    atoi new_scheduler parse_five parse_fields parse_field parse_parts parse_part start stop
    interval_loops any_cron
two_cron_loops = refl
