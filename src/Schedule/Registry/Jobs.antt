-- ===== src/Schedule/Registry/Jobs.antt =====
-- The list of jobs seen as a map from ids.
use polarix.Schedule.Cron.Fields.{Result-cases}
use polarix.Prelude.{
  ◌≡◌, refl, ap, subst, ◌∙◌, ◌≢◌, ◌⊎◌, inl, inr, Bool, true, false, Option, none, some, List, [],
  ◌∷◌, arith, if◌then◌else◌, Bool-cases, Option-cases, Text, same, same_iff, is_empty,
}
use polarix.Schedule.Registry.{
  Job, RegisteredJob, Scheduler, drop_first, find, has_interval, launch, prepare, put, register,
  set_paused, parse_cron, CronExpr, ok,
}

-- No two jobs have the same id.
abbrev pub HasDistinctIds : List RegisteredJob → Type 0
HasDistinctIds [] = Unit
HasDistinctIds (r ∷ rs) = (find r.job.id rs ≡ none) × HasDistinctIds rs

abbrev pub with_paused : Bool → Option RegisteredJob → Option RegisteredJob
with_paused b none = none
with_paused b (some r) = some (record r { paused = b })

pub find-put :
    (n : RegisteredJob) (id : Text) (rs : List RegisteredJob)
    → find id (put n rs) ≡ (if same n.job.id id then some n else find id rs)
unfolding find put
find-put n id [] = refl
find-put n id (r ∷ rs) = ground (
  arith,
  find-put n id rs,
  same_iff r.job.id n.job.id,
  same_iff n.job.id id,
  same_iff r.job.id id,
)

pub find-drop_first :
    (id other : Text) (rs : List RegisteredJob)
    → HasDistinctIds rs
    → find other (drop_first id rs) ≡ (if same id other then none else find other rs)
unfolding find drop_first
find-drop_first id other [] h = ground arith
find-drop_first id other (r ∷ rs) h = elim (Bool-cases (same r.job.id id)) [
  | inl e ↦
      let at_id : r.job.id ≡ id = (same_iff r.job.id id).0 e in
      elim (Bool-cases (same id other)) [
        | inl d ↦
            let at_other : r.job.id ≡ other = at_id ∙ (same_iff id other).0 d in
            rw (e, d) (subst (λ (k : Text). find k rs ≡ none) at_other h.0)
        | inr d ↦ rw (e, d, at_id) (rw d)
      ]
  | inr e ↦ rw e (
      ground (
        arith,
        find-drop_first id other rs h.1,
        same_iff r.job.id other,
        same_iff r.job.id id,
        same_iff id other,
      ))
]

pub find-set_paused :
    (id other : Text) (b : Bool) (rs : List RegisteredJob)
    → find other (set_paused id b rs)
      ≡ (if same id other then with_paused b (find other rs) else find other rs)
unfolding find set_paused
find-set_paused id other b [] = ground arith
find-set_paused id other b (r ∷ rs) = ground (
  arith,
  find-set_paused id other b rs,
  same_iff r.job.id other,
  same_iff r.job.id id,
  same_iff id other,
)

pub put-HasDistinctIds :
    (n : RegisteredJob) (rs : List RegisteredJob) → HasDistinctIds rs → HasDistinctIds (put n rs)
unfolding put find
put-HasDistinctIds n [] h = (refl, tt)
put-HasDistinctIds n (r ∷ rs) h = elim (Bool-cases (same r.job.id n.job.id)) [
  | inl e ↦
      rw e (subst (λ (k : Text). find k rs ≡ none) ((same_iff r.job.id n.job.id).0 e) h.0, h.1)
  | inr e ↦ rw e (
    find-put n r.job.id rs
        ∙ ground (arith, same_iff r.job.id n.job.id, same_iff n.job.id r.job.id, h.0),
    put-HasDistinctIds n rs h.1,
  )
]

pub drop_first-HasDistinctIds :
    (id : Text) (rs : List RegisteredJob) → HasDistinctIds rs → HasDistinctIds (drop_first id rs)
unfolding drop_first
drop_first-HasDistinctIds id [] h = tt
drop_first-HasDistinctIds id (r ∷ rs) h = elim (Bool-cases (same r.job.id id)) [
  | inl e ↦ rw e h.1
  | inr e ↦ rw e (
    find-drop_first id r.job.id rs h.1 ∙ ground (arith, h.0),
    drop_first-HasDistinctIds id rs h.1,
  )
]

pub set_paused-HasDistinctIds :
    (id : Text) (b : Bool) (rs : List RegisteredJob)
    → HasDistinctIds rs
    → HasDistinctIds (set_paused id b rs)
unfolding set_paused
set_paused-HasDistinctIds id b [] h = tt
set_paused-HasDistinctIds id b (r ∷ rs) h = elim (Bool-cases (same r.job.id id)) [
  | inl e ↦ rw e (h.0, h.1)
  | inr e ↦ rw e (
    find-set_paused id r.job.id b rs ∙ ground (arith, h.0),
    set_paused-HasDistinctIds id b rs h.1,
  )
]

pub jobs-launch : (s : Scheduler) (r : RegisteredJob) → (launch s r).jobs ≡ s.jobs
unfolding launch
jobs-launch s r = ground arith

-- The conditions under which Register takes a job.
abbrev pub IsAcceptable : Job → Type 0
IsAcceptable j =
    (j.id ≢ [])
    × (j.handle ≢ none)
    × ((has_interval j ≡ true) ⊎ ((j.cron ≢ []) × ((c : CronExpr) × (parse_cron j.cron ≡ ok c))))

prepare-IsAcceptable : (j : Job) (r : RegisteredJob) → prepare j ≡ some r → IsAcceptable j
unfolding prepare
prepare-IsAcceptable j r h = (
  λ e. ground arith,
  λ e. ground arith,
  elim (Bool-cases (has_interval j)) [
    | inl timed ↦ inl timed
    | inr cron ↦ inr (
      λ e. ground (arith, cron),
      elim (Result-cases (parse_cron j.cron)) [
        | inl ok_at ↦ ok_at
        | inr (e, bad) ↦ ground (arith, cron, bad)
      ],
    )
  ],
)

full_text : (s : Text) → s ≢ [] → is_empty s ≡ false
full_text [] h = absurd (h refl)
full_text (c ∷ s) h = refl

prepare-accepts : (j : Job) → IsAcceptable j → (r : RegisteredJob) × (prepare j ≡ some r)
unfolding prepare
prepare-accepts j (named, handled, timed) = elim (Option-cases j.handle) [
  | inl e ↦ absurd (handled e)
  | inr (f, e) ↦ elim timed [
    | inl every ↦ (
      record { job = j; cron = none; last_fire = none; paused = false },
      ground (arith, e, every, full_text j.id named),
    )
    | inr (written, (c, parsed_at)) ↦ elim (Bool-cases (has_interval j)) [
      | inl every ↦ (
        record { job = j; cron = none; last_fire = none; paused = false },
        ground (arith, e, every, full_text j.id named),
      )
      | inr cron ↦ (
        record { job = j; cron = some c; last_fire = none; paused = false },
        ground (arith, e, cron, parsed_at, full_text j.id named, full_text j.cron written),
      )
    ]
  ]
]

pub job-prepare : (j : Job) (r : RegisteredJob) → prepare j ≡ some r → r.job ≡ j
unfolding prepare
job-prepare j r h = elim (Result-cases (parse_cron j.cron)) [
  | inl (c, e) ↦ ground (arith, e)
  | inr (x, e) ↦ ground (arith, e)
]

-- Register takes a job exactly when it has an id, a handler, and a positive interval or else a cron
-- expression that parses. A job that is not taken leaves the scheduler as it is; one that is taken
-- is found under its id in place of any older one, every other id finds what it found before, and
-- ids stay distinct.
pub register_cases :
    (s : Scheduler) (j : Job)
    → HasDistinctIds s.jobs
    → ((¬ IsAcceptable j) × (register s j ≡ s))
      ⊎ (IsAcceptable j
          × HasDistinctIds (register s j).jobs
          × ((r : RegisteredJob) × (r.job ≡ j)
              × ((id : Text)
                  → find id (register s j).jobs
                    ≡ (if same j.id id then some r else find id s.jobs))))
unfolding register
register_cases s j distinct = elim (Option-cases (prepare j)) [
  | inl e ↦ inl (
    λ ok_job. let (r, got) = prepare-accepts j ok_job in ground (arith, e, got),
    rw (e, register),
  )
  | inr (r, e) ↦
      let job_at : r.job ≡ j = job-prepare j r e in
      inr (
        prepare-IsAcceptable j r e,
        rw (e, register) (rw (jobs-launch _ r) (put-HasDistinctIds r s.jobs distinct)),
        (
          r,
          job_at,
          λ id.
              rw (e, register)
                (rw (jobs-launch _ r) (
                  find-put r id s.jobs
                  ∙ ap (λ (k : Job). if same k.id id then some r else find id s.jobs) job_at)),
        ),
      )
]
