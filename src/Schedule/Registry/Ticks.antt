-- ===== src/Schedule/Registry/Ticks.antt =====
-- What Cancel, Pause and Resume do to a job, and which jobs a tick fires.
use polarix.Prelude.{
  ℕ, ◌≡◌, refl, ◌∙◌, inl, inr, true, false, some, List, [], ◌∷◌, arith, if◌then◌else◌, Bool-cases,
  Option-cases, All, Text, same, same_iff, same_refl,
}
use polarix.Schedule.Cron.{Clock}
use polarix.Schedule.Registry.{
  RegisteredJob, Scheduler, cancel, close, cron_tick, exists, find, is_due, is_paused, matches,
  pause, resume, tick_jobs,
}
use polarix.Schedule.Registry.Jobs.{HasDistinctIds, find-drop_first, find-set_paused}

-- Cancel returns whether the id was registered; after it the id is not, every other id finds what it
-- found before, and the cancel channel of the job that was found is closed.
pub exists-cancel :
    (s : Scheduler) (id : Text)
    → HasDistinctIds s.jobs
    → let (t, found) = cancel s id in
      (found ≡ exists s id)
      × (exists t id ≡ false)
      × ((other : Text) → same id other ≡ false → find other t.jobs ≡ find other s.jobs)
      × (t.closed ≡ close (find id s.jobs) s.closed)
unfolding cancel exists
exists-cancel s id distinct = elim (Option-cases (find id s.jobs)) [
  | inl e ↦ rw (e, cancel, exists) (refl, rw (e, exists), λ other ne. refl, refl)
  | inr (r, e) ↦
      rw (e, cancel, exists)
        (
          refl,
          rw (find-drop_first id id s.jobs distinct) (rw (same_refl id)),
          λ other ne. find-drop_first id other s.jobs distinct ∙ rw ne,
          refl,
        )
]

-- After Pause the id is paused if it is registered, every other id is as it was, and the answer is
-- whether the id is registered.
pub is_paused-pause :
    (s : Scheduler) (id other : Text)
    → let (t, found) = pause s id in
      (found ≡ exists s id)
      × (is_paused t other
          ≡ (if same id other then (exists s id, exists s id) else is_paused s other))
unfolding pause is_paused exists
is_paused-pause s id other = ground (arith, find-set_paused id other true s.jobs, same_iff id other)

-- After Resume the id is not paused, every other id is as it was, and the answer is whether the id is
-- registered.
pub is_paused-resume :
    (s : Scheduler) (id other : Text)
    → let (t, found) = resume s id in
      (found ≡ exists s id)
      × (is_paused t other ≡ (if same id other then (false, exists s id) else is_paused s other))
unfolding resume is_paused exists
is_paused-resume s id other =
    ground (arith, find-set_paused id other false s.jobs, same_iff id other)

-- A job that a tick may fire: it has an expression that matches, and is not paused.
abbrev pub IsDue : Clock → ℕ → RegisteredJob → Type 0
IsDue t minute r = (matches r.cron t ≡ true) × (r.paused ≡ false) × (r.last_fire ≡ some minute)

tick_jobs-IsDue :
    (rs : List RegisteredJob) (t : Clock) (minute : ℕ)
    → All (IsDue t minute) (tick_jobs rs t minute).1
unfolding tick_jobs
tick_jobs-IsDue [] t minute = tt
tick_jobs-IsDue (r ∷ rs) t minute = ground (arith, tick_jobs-IsDue rs t minute)

tick_jobs_again :
    (rs : List RegisteredJob) (t : Clock) (minute : ℕ)
    → tick_jobs (tick_jobs rs t minute).0 t minute ≡ ((tick_jobs rs t minute).0, [])
unfolding tick_jobs
tick_jobs_again [] t minute = refl
tick_jobs_again (r ∷ rs) t minute = elim (Bool-cases (is_due r t minute)) [
  | inl due ↦ rw due (ground (arith, tick_jobs_again rs t minute))
  | inr idle ↦ rw idle (ground (arith, tick_jobs_again rs t minute, idle))
]

-- Every job that a tick of the cron loop fires has an expression that matches the time, is not paused
-- and is stamped with the minute; a second tick in the same minute fires nothing and changes nothing.
pub cron_tick-IsDue :
    (s : Scheduler) (t : Clock) (minute : ℕ)
    → let (after, fired) = cron_tick s t minute in
      All (IsDue t minute) fired × (cron_tick after t minute ≡ (after, []))
unfolding cron_tick
cron_tick-IsDue s t minute =
    (tick_jobs-IsDue s.jobs t minute, ground (arith, tick_jobs_again s.jobs t minute))
