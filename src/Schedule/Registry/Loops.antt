-- ===== src/Schedule/Registry/Loops.antt =====
-- Histories of operations of the scheduler, and its loops.
use polarix.Prelude.{
  ℕ, ◌≡◌, refl, sym, ◌∙◌, ◌⊎◌, inl, inr, Bool, true, false, not, Option, none, some, List, [], ◌∷◌,
  arith, if◌then◌else◌, Bool-cases, Option-cases, Text,
}
use polarix.Schedule.Cron.{Clock}
use polarix.Schedule.Registry.{
  Job, Scheduler, any_cron, cancel, cron_tick, find, flag, launch, leave, new_scheduler, pause,
  prepare, register, resume, start, stop,
}
use polarix.Schedule.Registry.CronJobs.{
  any_cron-drop_first, any_cron-put, any_cron-set_paused, any_cron-tick_jobs, runs_cron,
  runs_cron-interval_loops, runs_cron-without, tick_jobs-HasDistinctIds,
}
use polarix.Schedule.Registry.Jobs.{
  HasDistinctIds, drop_first-HasDistinctIds, jobs-launch, put-HasDistinctIds,
  set_paused-HasDistinctIds,
}

pub data Op : Type 0 where
  registers : Job → Op
  cancels : Text → Op
  pauses : Text → Op
  resumes : Text → Op
  starts : Option ℕ → Op
  stops : Op
  leaves : ℕ → Bool → Op
  ticks : Clock → ℕ → Op

unfoldable pub step : Scheduler → Op → Scheduler
step s (registers j) = register s j
step s (cancels id) = (cancel s id).0
step s (pauses id) = (pause s id).0
step s (resumes id) = (resume s id).0
step s (starts c) = start s c
step s stops = stop s
step s (leaves n cancelled) = leave s n cancelled
step s (ticks t minute) = (cron_tick s t minute).0

unfoldable pub run : Scheduler → List Op → Scheduler
unfolding step
run s [] = s
run s (o ∷ os) = run (step s o) os

-- Ids are distinct; the flag, which only a started scheduler has, stands for a cron goroutine that
-- runs; a started scheduler with a cron job has it, and an open channel; and the loops that a stopped
-- one has left see a closed channel.
pub record IsSound (s : Scheduler) : Type 0 where
  pub distinct : HasDistinctIds s.jobs
  pub flag_at : s.cron_loop_on ≡ true → runs_cron s.loops ≡ true
  pub off : s.started ≡ false → s.cron_loop_on ≡ false
  pub served : s.started ≡ true → any_cron s.jobs ≡ true → s.cron_loop_on ≡ true
  pub open_on : s.started ≡ true → s.stop_closed ≡ false
  pub closed_off : s.started ≡ false → (s.loops ≡ []) ⊎ (s.stop_closed ≡ true)

register-IsSound : (s : Scheduler) (j : Job) → IsSound s → IsSound (register s j)
unfolding register launch
register-IsSound s j h = elim (Option-cases (prepare j)) [
  | inl e ↦ rw (e, register) h
  | inr (r, e) ↦
      rw (e, register)
        (record {
          distinct = rw (jobs-launch _ r) (put-HasDistinctIds r s.jobs h.distinct);
          flag_at = ground (arith, h.flag_at);
          off = ground (arith, h.off);
          served = ground (arith, h.served, any_cron-put r s.jobs);
          open_on = ground (arith, h.open_on);
          closed_off = ground (arith, h.closed_off);
        })
]

cancel-IsSound : (s : Scheduler) (id : Text) → IsSound s → IsSound (cancel s id).0
unfolding cancel
cancel-IsSound s id h = elim (Option-cases (find id s.jobs)) [
  | inl e ↦ rw (e, cancel) h
  | inr (r, e) ↦
      rw (e, cancel)
        (record {
          distinct = drop_first-HasDistinctIds id s.jobs h.distinct;
          flag_at = h.flag_at;
          off = h.off;
          served = λ on some_cron. h.served on (any_cron-drop_first id s.jobs some_cron);
          open_on = h.open_on;
          closed_off = h.closed_off;
        })
]

flag-IsSound : (s : Scheduler) (id : Text) (b : Bool) → IsSound s → IsSound (flag s id b).0
flag-IsSound s id b h = elim (Option-cases (find id s.jobs)) [
  | inl e ↦ rw (e, flag) h
  | inr (r, e) ↦
      rw (e, flag)
        (record {
          distinct = set_paused-HasDistinctIds id b s.jobs h.distinct;
          flag_at = h.flag_at;
          off = h.off;
          served = λ on some_cron.
              h.served on (ground (arith, any_cron-set_paused id b s.jobs, some_cron));
          open_on = h.open_on;
          closed_off = h.closed_off;
        })
]

if-IsSound :
    (b : Bool) (s t : Scheduler)
    → (b ≡ true → IsSound s)
    → (b ≡ false → IsSound t)
    → IsSound (if b then s else t)
if-IsSound true s t taken other = taken refl
if-IsSound false s t taken other = other refl

start-IsSound : (s : Scheduler) (c : Option ℕ) → IsSound s → IsSound (start s c)
unfolding start
start-IsSound s none h = h
start-IsSound s (some c) h =
    if-IsSound s.started _ _ (λ on. h)
      (λ off.
        if-IsSound (any_cron s.jobs) _ _
          (λ some_cron. record {
            distinct = h.distinct;
            flag_at = λ x. refl;
            off = λ x. cc;
            served = λ x y. refl;
            open_on = λ x. refl;
            closed_off = λ x. cc;
          })
          (λ no_cron. record {
            distinct = h.distinct;
            flag_at = λ x. runs_cron-interval_loops s.jobs s.loops ∙ h.flag_at x;
            off = λ x. cc;
            served = λ x y. ground (arith, no_cron, y);
            open_on = λ x. refl;
            closed_off = λ x. cc;
          }))

leave-IsSound :
    (s : Scheduler) (n : ℕ) (cancelled : Bool) → IsSound s → IsSound (leave s n cancelled)
unfolding leave
leave-IsSound s n cancelled h = record {
  distinct = h.distinct;
  flag_at = λ on.
      let started : s.started ≡ true = elim (Bool-cases s.started) [
        | inl e ↦ e
        | inr e ↦ let clash : false ≡ true = sym (h.off e) ∙ on in cc
      ] in
      rw (h.open_on started) (runs_cron-without n s.loops cancelled (h.flag_at on));
  off = h.off;
  served = h.served;
  open_on = h.open_on;
  closed_off = λ off. elim (h.closed_off off) [ inl e ↦ inl (rw e refl) | inr e ↦ inr e ];
}

step-IsSound : (s : Scheduler) (o : Op) → IsSound s → IsSound (step s o)
unfolding step pause resume stop cron_tick
step-IsSound s (registers j) h = register-IsSound s j h
step-IsSound s (cancels id) h = cancel-IsSound s id h
step-IsSound s (pauses id) h = flag-IsSound s id true h
step-IsSound s (resumes id) h = flag-IsSound s id false h
step-IsSound s (starts c) h = start-IsSound s c h
step-IsSound s stops h =
    if-IsSound (not s.started) _ _ (λ off. h)
      (λ on. record {
        distinct = h.distinct;
        flag_at = λ x. cc;
        off = λ x. refl;
        served = λ x. cc;
        open_on = λ x. cc;
        closed_off = λ x. inr refl;
      })
step-IsSound s (leaves n cancelled) h = leave-IsSound s n cancelled h
step-IsSound s (ticks t minute) h = record {
  distinct = tick_jobs-HasDistinctIds s.jobs t minute h.distinct;
  flag_at = h.flag_at;
  off = h.off;
  served =
      λ on some_cron. h.served on (ground (arith, any_cron-tick_jobs s.jobs t minute, some_cron));
  open_on = h.open_on;
  closed_off = h.closed_off;
}

run_lem : (s : Scheduler) (os : List Op) → IsSound s → IsSound (run s os)
unfolding run
run_lem s [] h = h
run_lem s (o ∷ os) h = run_lem (step s o) os (step-IsSound s o h)

-- After any sequence of registrations, cancellations, pauses, resumptions, starts, stops, ticks and
-- returns of loops from the start-up state: ids are distinct; a started scheduler with a cron job has
-- its flag on and its channel open; wherever the flag is on, a cron goroutine is among the loops that
-- have not returned; and the loops that a stopped scheduler still has see a closed channel.
pub run-IsSound : (os : List Op) → IsSound (run new_scheduler os)
unfolding new_scheduler any_cron
run-IsSound os = run_lem new_scheduler os (record {
  distinct = tt;
  flag_at = λ x. cc;
  off = λ x. refl;
  served = λ x. cc;
  open_on = λ x. cc;
  closed_off = λ x. inl refl;
})
