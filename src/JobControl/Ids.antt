-- ===== src/JobControl/Ids.antt =====
-- PA4/src/jobcontrol.c, `addjob` and `deletejob`: job ids and what the searches find afterwards.
use sysprog.Base.{
  ℕ, ◌+◌, ◌≤◌, ◌<◌, ◌≡◌, refl, ◌≢◌, ◌⊎◌, true, false, none, some, List, [], ◌∷◌, All, arith, ltb,
  if◌then◌else◌, Bytes, length, ◌^◌,
}
use sysprog.JobControl.{
  Job, JobState, new_job, maxid_from, getmaxid, addjob, deletejob, find, getjob_jid,
}

-- The ids are distinct.
abbrev pub Distinct : List Job → Type 0
Distinct [] = Unit {0}
Distinct (j ∷ js) = All (λ k. k.jid ≢ j.jid) js × Distinct js

maxid_from-ge : (id : ℕ) (js : List Job) → id ≤ maxid_from id js
unfolding maxid_from
maxid_from-ge id [] = omega arith
maxid_from-ge id (j ∷ js) = ground (arith, maxid_from-ge id js, maxid_from-ge j.jid js)

maxid_from-bounds : (id : ℕ) (js : List Job) → All (λ k. k.jid ≤ maxid_from id js) js
unfolding maxid_from
maxid_from-bounds id [] = tt
maxid_from-bounds id (j ∷ js) = (
  ground (arith, maxid_from-ge id js, maxid_from-ge j.jid js),
  maxid_from-bounds (if ltb id j.jid then j.jid else id) js,
)

All-lt_ne : (m : ℕ) (js : List Job) → All (λ k. k.jid ≤ m) js → All (λ k. k.jid ≢ m + 1) js
All-lt_ne m [] h = tt
All-lt_ne m (j ∷ js) h = (omega arith, All-lt_ne m js h.1)

-- The outcome of a successful `addjob`.
pub record Added (pgid : ℕ) (pid : List ℕ) (nproc : ℕ) (state : JobState) (cmdline : Bytes)
    (jobs jobs' : List Job) (jid : ℕ) : Type 0 where
  pub pushed : jobs' ≡ new_job jid pgid pid nproc state cmdline ∷ jobs
  pub above : All (λ k. k.jid < jid) jobs
  pub distinct : Distinct jobs'

All-lt : (m : ℕ) (js : List Job) → All (λ k. k.jid ≤ m) js → All (λ k. k.jid < m + 1) js
All-lt m [] h = tt
All-lt m (j ∷ js) h = (omega arith, All-lt m js h.1)

-- With a positive process group and process count, and a text that fits in, `addjob` puts a new job in front of the list
-- under an id above all ids in use, so distinct ids stay distinct.
pub addjob-Added :
    (pgid : ℕ) (pid : List ℕ) (nproc : ℕ) (state : JobState) (cmdline : Bytes) (jobs : List Job)
    → (0 < pgid) × (pgid < 2 ^ 31)
    → (0 < nproc) × (nproc < 2 ^ 31)
    → length cmdline ≤ 1024
    → Distinct jobs
    → (jobs' : List Job) × (jid : ℕ) × (addjob pgid pid nproc state cmdline jobs
        ≡ some (jobs', jid))
      × Added pgid pid nproc state cmdline jobs jobs' jid
unfolding addjob getmaxid
addjob-Added pgid pid nproc state cmdline jobs hp hn short d = (
  new_job (maxid_from 0 jobs + 1) pgid pid nproc state cmdline ∷ jobs,
  maxid_from 0 jobs + 1,
  ground arith,
  record {
    pushed = refl;
    above = All-lt _ jobs (maxid_from-bounds 0 jobs);
    distinct = (All-lt_ne _ jobs (maxid_from-bounds 0 jobs), d);
  },
)

-- A failed assertion: `addjob` aborts on a process group or process count that is not
-- positive.
pub addjob-none :
    (pgid : ℕ) (pid : List ℕ) (nproc : ℕ) (state : JobState) (cmdline : Bytes) (jobs : List Job)
    → ((pgid ≡ 0) ⊎ (2 ^ 31 ≤ pgid)) ⊎ ((nproc ≡ 0) ⊎ (2 ^ 31 ≤ nproc))
    → addjob pgid pid nproc state cmdline jobs ≡ none
unfolding addjob
addjob-none pgid pid nproc state cmdline jobs h = ground arith

find-none : (jid : ℕ) (js : List Job) → All (λ k. k.jid ≢ jid) js → getjob_jid jid js ≡ none
unfolding find
find-none jid [] h = refl
find-none jid (j ∷ js) h = ground (arith, find-none jid js h.1)

All-ne_subst : (a b : ℕ) (js : List Job) → a ≡ b → All (λ k. k.jid ≢ a) js → All (λ k. k.jid ≢ b) js
All-ne_subst a b js e h = rw e at h

-- What `deletejob` does to a list with distinct ids: it answers whether the id was in use, the id
-- is free afterwards, and every other id finds the same job as before.
pub deletejob_lem :
    (jid : ℕ) (js : List Job)
    → Distinct js
    → (getjob_jid jid (deletejob jid js).0 ≡ none)
      × ((other : ℕ) → other ≢ jid → getjob_jid other (deletejob jid js).0 ≡ getjob_jid other js)
      × ((deletejob jid js).1 ≡ elim (getjob_jid jid js) [ none ↦ false | some _ ↦ true ])
unfolding deletejob find
deletejob_lem jid [] d = (refl, λ other h. refl, refl)
deletejob_lem jid (j ∷ js) d =
    let ih = deletejob_lem jid js d.1 in
    (
      ground (arith, ih.0, find-none j.jid js d.0),
      λ other h. ground (arith, ih.1 other h),
      ground (arith, ih.2),
    )

All-deletejob :
    (jid k : ℕ) (js : List Job)
    → All (λ i. i.jid ≢ k) js
    → All (λ i. i.jid ≢ k) (deletejob jid js).0
unfolding deletejob
All-deletejob jid k [] h = tt
All-deletejob jid k (j ∷ js) h = ground (arith, h, All-deletejob jid k js h.1)

-- `deletejob` keeps the ids distinct.
pub deletejob-Distinct : (jid : ℕ) (js : List Job) → Distinct js → Distinct (deletejob jid js).0
unfolding deletejob
deletejob-Distinct jid [] d = tt
deletejob-Distinct jid (j ∷ js) d =
    ground (arith, d.1, deletejob-Distinct jid js d.1, All-deletejob jid j.jid js d.0)
