-- ===== src/Schedule/Registry/CronJobs.antt =====
-- The cron jobs of the registry and the goroutine that fires them: what the operations do to them.
use polarix.Prelude.{
  ℕ, ◌-◌, ◌≡◌, refl, ◌∙◌, ◌⊎◌, inl, inr, Bool, true, false, not, none, List, [], ◌∷◌, arith,
  Bool-cases, Text, same,
}
use polarix.Schedule.Cron.{Clock}
use polarix.Schedule.Registry.{
  Loop, RegisteredJob, any_cron, drop_first, find, has_interval, interval_loops, is_due, put,
  run_cron_loop, run_interval, set_paused, tick_jobs, without,
}
use polarix.Schedule.Registry.Jobs.{HasDistinctIds}

-- Is the cron goroutine among the loops?
abbrev pub runs_cron : List Loop → Bool
runs_cron [] = false
runs_cron (run_cron_loop ∷ loops) = true
runs_cron (run_interval r ∷ loops) = runs_cron loops

pub any_cron-put :
    (n : RegisteredJob) (rs : List RegisteredJob)
    → any_cron (put n rs) ≡ true
    → (not (has_interval n.job) ≡ true) ⊎ (any_cron rs ≡ true)
unfolding any_cron put
any_cron-put n [] h = ground (arith, h)
any_cron-put n (r ∷ rs) h = elim (Bool-cases (same r.job.id n.job.id)) [
  | inl e ↦ ground (arith, h, e)
  | inr e ↦ ground (arith, h, e, any_cron-put n rs)
]

pub any_cron-drop_first :
    (id : Text) (rs : List RegisteredJob) → any_cron (drop_first id rs) ≡ true → any_cron rs ≡ true
unfolding any_cron drop_first
any_cron-drop_first id [] h = h
any_cron-drop_first id (r ∷ rs) h = ground (arith, any_cron-drop_first id rs)

pub any_cron-set_paused :
    (id : Text) (b : Bool) (rs : List RegisteredJob) → any_cron (set_paused id b rs) ≡ any_cron rs
unfolding any_cron set_paused
any_cron-set_paused id b [] = refl
any_cron-set_paused id b (r ∷ rs) = ground (arith, any_cron-set_paused id b rs)

pub any_cron-tick_jobs :
    (rs : List RegisteredJob) (t : Clock) (minute : ℕ)
    → any_cron (tick_jobs rs t minute).0 ≡ any_cron rs
unfolding any_cron tick_jobs
any_cron-tick_jobs [] t minute = refl
any_cron-tick_jobs (r ∷ rs) t minute = ground (arith, any_cron-tick_jobs rs t minute)

pub find-tick_jobs :
    (id : Text) (rs : List RegisteredJob) (t : Clock) (minute : ℕ)
    → find id rs ≡ none
    → find id (tick_jobs rs t minute).0 ≡ none
unfolding find tick_jobs
find-tick_jobs id [] t minute h = refl
find-tick_jobs id (r ∷ rs) t minute h = ground (arith, find-tick_jobs id rs t minute, h)

pub tick_jobs-HasDistinctIds :
    (rs : List RegisteredJob) (t : Clock) (minute : ℕ)
    → HasDistinctIds rs
    → HasDistinctIds (tick_jobs rs t minute).0
unfolding tick_jobs
tick_jobs-HasDistinctIds [] t minute h = tt
tick_jobs-HasDistinctIds (r ∷ rs) t minute h = elim (Bool-cases (is_due r t minute)) [
  | inl e ↦ rw e (find-tick_jobs r.job.id rs t minute h.0, tick_jobs-HasDistinctIds rs t minute h.1)
  | inr e ↦ rw e (find-tick_jobs r.job.id rs t minute h.0, tick_jobs-HasDistinctIds rs t minute h.1)
]

pub runs_cron-interval_loops :
    (rs : List RegisteredJob) (loops : List Loop)
    → runs_cron (interval_loops rs loops) ≡ runs_cron loops
unfolding interval_loops
runs_cron-interval_loops [] loops = refl
runs_cron-interval_loops (r ∷ rs) loops = elim (Bool-cases (has_interval r.job)) [
  | inl e ↦ runs_cron-interval_loops rs _ ∙ rw e refl
  | inr e ↦ runs_cron-interval_loops rs _ ∙ rw e refl
]

pub runs_cron-without :
    (n : ℕ) (loops : List Loop) (cancelled : Bool)
    → runs_cron loops ≡ true
    → runs_cron (without n loops false cancelled) ≡ true
runs_cron-without n [] cancelled h = h
runs_cron-without n (run_interval r ∷ loops) cancelled h =
    ground (arith, runs_cron-without (n - 1) loops cancelled h, h)
runs_cron-without n (run_cron_loop ∷ loops) cancelled h = ground arith
