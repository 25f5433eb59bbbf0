-- ===== src/Schedule/Registry.antt =====
-- lib/schedule/schedule.go: the registry of jobs and the scheduler. Each operation runs under the
-- package's locks and is one step here. A goroutine that an operation starts is recorded in `loops`,
-- and leaves it by a step of its own (`leave`), which the closed stop channel allows; a job whose
-- cancel channel has been closed is recorded in `closed`.
pub mod Jobs
pub mod Ticks
pub mod CronJobs
pub mod Loops
pub mod Tests
use polarix.Prelude.{
  ℕ, zero, ◌-◌, ◌/◌, ap, Bool, true, false, not, ◌&&◌, ◌||◌, Option, none, some, List, [], ◌∷◌, ltb,
  ◌==◌, if◌then◌else◌, length, set, Text, str, same, is_empty, ℤ, pos, ltb_ℤ,
}
use polarix.Schedule.Cron.{Clock, CronError, CronExpr, Result, err, has, match, ok, parse_cron}

pub record Job : Type 0 where
  pub id : Text
  pub plugin_id : Text
  pub cron : Text
  pub interval : ℤ
  pub immediate : Bool
  pub group_id : Text
  pub user_id : Text
  pub target : ℕ  -- constant.MessageOrigin: 0 is a group, 1 is private
  pub handle : Option ℕ  -- none is a nil function

pub record RegisteredJob : Type 0 where
  pub job : Job
  pub cron : Option CronExpr
  pub last_fire : Option ℕ  -- the minute of the last firing; none is the zero time
  pub paused : Bool

pub data Loop : Type 0 where
  run_interval : RegisteredJob → Loop
  run_cron_loop : Loop

pub record Scheduler : Type 0 where
  pub jobs : List RegisteredJob
  pub closed : List RegisteredJob
  pub loops : List Loop
  pub client : Option ℕ
  pub started : Bool
  pub cron_loop_on : Bool
  pub stop_closed : Bool  -- has the channel that stopCh holds been closed? nil never is

unfoldable pub new_scheduler : Scheduler
new_scheduler = record {
  jobs = [];
  closed = [];
  loops = [];
  client = none;
  started = false;
  cron_loop_on = false;
  stop_closed = false;
}

abbrev pub has_interval : Job → Bool
has_interval j = ltb_ℤ (pos 0) j.interval

unfoldable pub find : Text → List RegisteredJob → Option RegisteredJob
find id [] = none
find id (r ∷ rs) = let rest = find id rs in if same r.job.id id then some r else rest

-- `jobs[i] = rj` at the first job with the id, or `append`
unfoldable pub put : RegisteredJob → List RegisteredJob → List RegisteredJob
put n [] = n ∷ []
put n (r ∷ rs) = let rest = put n rs in if same r.job.id n.job.id then n ∷ rs else r ∷ rest

-- The first job with the id is taken out.
unfoldable pub drop_first : Text → List RegisteredJob → List RegisteredJob
drop_first id [] = []
drop_first id (r ∷ rs) = let rest = drop_first id rs in if same r.job.id id then rs else r ∷ rest

-- The first job with the id has its flag set.
unfoldable pub set_paused : Text → Bool → List RegisteredJob → List RegisteredJob
set_paused id b [] = []
set_paused id b (r ∷ rs) =
    let rest = set_paused id b rs in
    if same r.job.id id then record r { paused = b } ∷ rs else r ∷ rest

abbrev pub close : Option RegisteredJob → List RegisteredJob → List RegisteredJob
close none closed = closed
close (some r) closed = r ∷ closed

abbrev pub prepared : Job → Result CronError CronExpr → Option RegisteredJob
prepared j (ok c) = some (record { job = j; cron = some c; last_fire = none; paused = false })
prepared j (err e) = none

-- The guards at the head of Register and the parse of the expression; none where it logs and returns.
unfoldable pub prepare : Job → Option RegisteredJob
prepare j =
    let timed : Option RegisteredJob =
      if has_interval j
      then some (record { job = j; cron = none; last_fire = none; paused = false })
      else prepared j (parse_cron j.cron) in
    if is_empty j.id then none else elim j.handle [
      | none ↦ none
      | some h ↦ if not (has_interval j) && is_empty j.cron then none else timed
    ]

-- The end of Register: the goroutine that a running scheduler starts for the new job.
unfoldable pub launch : Scheduler → RegisteredJob → Scheduler
launch s r =
    let need_cron = not (has_interval r.job) && not s.cron_loop_on in
    if not s.started
    then s
    else if has_interval r.job
    then record s { loops = run_interval r ∷ s.loops }
    else if need_cron
    then record s { loops = run_cron_loop ∷ s.loops; cron_loop_on = true }
    else s

-- Register
unfoldable pub register : Scheduler → Job → Scheduler
unfolding prepare launch find put
register s j = elim (prepare j) [
  | none ↦ s
  | some r ↦ launch (record s { jobs = put r s.jobs; closed = close (find j.id s.jobs) s.closed }) r
]

-- Cancel
unfoldable pub cancel : Scheduler → Text → Scheduler × Bool
unfolding find drop_first
cancel s id = elim (find id s.jobs) [
  | none ↦ (s, false)
  | some r ↦ (record s { jobs = drop_first id s.jobs; closed = r ∷ s.closed }, true)
]

abbrev pub flag : Scheduler → Text → Bool → Scheduler × Bool
flag s id b = elim (find id s.jobs) [
  | none ↦ (s, false)
  | some r ↦ (record s { jobs = set_paused id b s.jobs }, true)
]

-- Pause
unfoldable pub pause : Scheduler → Text → Scheduler × Bool
unfolding find set_paused
pause s id = flag s id true

-- Resume
unfoldable pub resume : Scheduler → Text → Scheduler × Bool
unfolding find set_paused
resume s id = flag s id false

-- IsPaused, as (paused, exists)
unfoldable pub is_paused : Scheduler → Text → Bool × Bool
unfolding find
is_paused s id = elim (find id s.jobs) [ none ↦ (false, false) | some r ↦ (r.paused, true) ]

-- Exists
unfoldable pub exists : Scheduler → Text → Bool
unfolding find
exists s id = elim (find id s.jobs) [ none ↦ false | some r ↦ true ]

-- GetJobCount
unfoldable pub get_job_count : Scheduler → ℕ
get_job_count s = length s.jobs

-- The loop of Start over a snapshot of the jobs: the interval loops that it starts.
unfoldable pub interval_loops : List RegisteredJob → List Loop → List Loop
interval_loops [] loops = loops
interval_loops (r ∷ rs) loops =
    interval_loops rs (if has_interval r.job then run_interval r ∷ loops else loops)

-- `cronN > 0`
unfoldable pub any_cron : List RegisteredJob → Bool
any_cron [] = false
any_cron (r ∷ rs) = not (has_interval r.job) || any_cron rs

-- Start
unfoldable pub start : Scheduler → Option ℕ → Scheduler
unfolding interval_loops any_cron
start s none = s
start s (some c) =
    let loops = interval_loops s.jobs s.loops in
    let t = record s { client = some c; started = true; stop_closed = false; loops = loops } in
    if s.started
    then s
    else if any_cron s.jobs
    then record t { cron_loop_on = true; loops = run_cron_loop ∷ loops }
    else t

-- Stop. The loops go on until they see the closed channel.
unfoldable pub stop : Scheduler → Scheduler
stop s =
    if not s.started
    then s
    else record s { started = false; cron_loop_on = false; stop_closed = true }

-- The cases of a loop's `select` that return, given whether the job's cancel channel is closed.
abbrev pub may_return : Loop → Bool → Bool → Bool
may_return (run_interval r) stop_closed cancelled = stop_closed || cancelled
may_return run_cron_loop stop_closed cancelled = stop_closed

abbrev pub without : ℕ → List Loop → Bool → Bool → List Loop
without n [] stop_closed cancelled = []
without n (l ∷ loops) stop_closed cancelled =
    let rest = without (n - 1) loops stop_closed cancelled in
    if not (n == 0)
    then l ∷ rest
    else if may_return l stop_closed cancelled
    then loops
    else l ∷ loops

-- The loop at the place `n` reads stopCh again, and returns where the channel is closed.
unfoldable pub leave : Scheduler → ℕ → Bool → Scheduler
leave s n cancelled = record s { loops = without n s.loops s.stop_closed cancelled }

abbrev pub fired_at : Option ℕ → ℕ → Bool
fired_at none minute = false
fired_at (some m) minute = m == minute

abbrev pub matches : Option CronExpr → Clock → Bool
matches none t = false
matches (some c) t = match c t

-- The tests in the loop of runCronLoop, none of which may say `continue`.
unfoldable pub is_due : RegisteredJob → Clock → ℕ → Bool
is_due r t minute = matches r.cron t && not r.paused && not (fired_at r.last_fire minute)

-- A tick of runCronLoop at the time `t`, in the minute `minute`: the jobs after it, and toFire.
unfoldable pub tick_jobs : List RegisteredJob → Clock → ℕ → List RegisteredJob × List RegisteredJob
unfolding is_due
tick_jobs [] t minute = ([], [])
tick_jobs (r ∷ rs) t minute =
    let (rest, fired) = tick_jobs rs t minute in
    let r' = record r { last_fire = some minute } in
    if is_due r t minute then (r' ∷ rest, r' ∷ fired) else (r ∷ rest, fired)

unfoldable pub cron_tick : Scheduler → Clock → ℕ → Scheduler × List RegisteredJob
unfolding tick_jobs
cron_tick s t minute =
    let (jobs, fired) = tick_jobs s.jobs t minute in (record s { jobs = jobs }, fired)

-- tryFire, given whether the job's cancel channel is closed: does it fire?
unfoldable pub try_fire : RegisteredJob → Bool → Bool
try_fire r cancelled = if r.paused then false else if cancelled then false else true

-- What applyJobTarget writes into a fresh context: the group, the user and the origin.
pub record Target : Type 0 where
  pub group_id : Text
  pub user_id : Text
  pub origin : ℕ

-- applyJobTarget
unfoldable pub apply_job_target : Job → Target
apply_job_target j =
    let ctx : Target = record { group_id = j.group_id; user_id = j.user_id; origin = 0 } in
    if j.target == 1
    then record ctx { origin = 1 }
    else if not (is_empty j.group_id)
    then record ctx { origin = 0 }
    else if not (is_empty j.user_id)
    then record ctx { origin = 1 }
    else ctx
