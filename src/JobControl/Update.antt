-- ===== src/JobControl/Update.antt =====
-- Writes through a `Job *`: what the searches of PA4/src/jobcontrol.c find after one.
use sysprog.Base.{
  ℕ, suc, ◌+◌, ◌≤◌, ◌≡◌, ◌≢◌, refl, sym, Bool, true, some, List, [], ◌∷◌, All, arith, ◌==◌, subst,
  inl, inr, Bool-cases, if◌then◌else◌,
}
use sysprog.JobControl.{
  Job, find, update, has_pid, getjob_pid, getjob_jid, deletejob, is_foreground,
}
use sysprog.JobControl.Ids.{Distinct}

-- How many jobs run in the foreground.
unfoldable pub foreground_count : List Job → ℕ
foreground_count [] = 0
foreground_count (j ∷ js) = (if is_foreground j then 1 else 0) + foreground_count js

-- A write that leaves alone what the searches by id read.
pub record KeepsIds (f : Job → Job) : Type 0 where
  pub same_jid : (j : Job) → (f j).jid ≡ j.jid
  pub same_pid : (j : Job) → (f j).pid ≡ j.pid
  pub same_tot : (j : Job) → (f j).nproc_tot ≡ j.nproc_tot

pub All-find {ℓ} :
    (P : Job → Type ℓ) (test : Job → Bool) (js : List Job) (j : Job)
    → All P js
    → find test js ≡ some j
    → P j
unfolding find
All-find P test [] j h e = cc
All-find P test (i ∷ js) j h e = elim (Bool-cases (test i)) [
  | inl t ↦ subst P (cc (rw t at e)) h.0
  | inr t ↦ All-find P test js j h.1 (rw t at e)
]

module _ (f : Job → Job) (k : KeepsIds f) where
  pub All-update :
      (test : Job → Bool) (id : ℕ) (js : List Job)
      → All (λ i. i.jid ≢ id) js
      → All (λ i. i.jid ≢ id) (update test f js)
  unfolding update
  All-update test id [] h = tt
  All-update test id (j ∷ js) h = ground (arith, k.same_jid j, h, All-update test id js h.1)

  pub update-Distinct :
      (test : Job → Bool) (js : List Job) → Distinct js → Distinct (update test f js)
  unfolding update
  update-Distinct test [] d = tt
  update-Distinct test (j ∷ js) d = elim (Bool-cases (test j)) [
    | inl t ↦ rw t (rw (k.same_jid j) d.0, d.1)
    | inr t ↦ rw t (All-update test j.jid js d.0, update-Distinct test js d.1)
  ]

  -- The job that a search finds is found, changed, by its id.
  pub getjob_jid-update :
      (test : Job → Bool) (js : List Job) (j : Job)
      → Distinct js
      → find test js ≡ some j
      → getjob_jid j.jid (update test f js) ≡ some (f j)
  unfolding find update
  getjob_jid-update test [] j d e = cc
  getjob_jid-update test (i ∷ js) j d e = ground (
    arith,
    k.same_jid i,
    getjob_jid-update test js j d.1,
    All-find (λ m. m.jid ≢ i.jid) test js j d.0,
  )

  -- Another process of the same job still leads to it.
  pub getjob_pid-update :
      (p q : ℕ) (js : List Job) (j : Job)
      → Distinct js
      → getjob_pid p js ≡ some j
      → getjob_pid q js ≡ some j
      → getjob_pid q (update (has_pid p) f js) ≡ some (f j)
  unfolding find update
  getjob_pid-update p q [] j d e e' = cc
  getjob_pid-update p q (i ∷ js) j d e e' = ground (
    arith,
    k.same_pid i,
    k.same_tot i,
    getjob_pid-update p q js j d.1,
    All-find (λ m. m.jid ≢ i.jid) (has_pid p) js j d.0,
    All-find (λ m. m.jid ≢ i.jid) (has_pid q) js j d.0,
  )

  -- Deleting the job that was written to is deleting it unwritten.
  pub deletejob-update :
      (p : ℕ) (js : List Job) (j : Job)
      → Distinct js
      → getjob_pid p js ≡ some j
      → (deletejob j.jid (update (has_pid p) f js)).0 ≡ (deletejob j.jid js).0
  unfolding find update deletejob
  deletejob-update p [] j d e = refl
  deletejob-update p (i ∷ js) j d e = ground (
    arith,
    k.same_jid i,
    deletejob-update p js j d.1,
    All-find (λ m. m.jid ≢ i.jid) (has_pid p) js j d.0,
  )

  -- What every job satisfies holds after a write that keeps it at the job found.
  pub All-update_found {ℓ} :
      (P : Job → Type ℓ) (test : Job → Bool) (js : List Job) (j : Job)
      → find test js ≡ some j
      → All P js
      → P (f j)
      → All P (update test f js)
  unfolding find update
  All-update_found P test [] j e h q = tt
  All-update_found P test (i ∷ js) j e h q = elim (Bool-cases (test i)) [
    | inl t ↦ rw t (subst (λ m. P (f m)) (sym (cc (rw t at e))) q, h.1)
    | inr t ↦ rw t (h.0, All-update_found P test js j (rw t at e) h.1 q)
  ]

  -- A write that brings no job to the foreground.
  pub foreground_count-update :
      (test : Job → Bool) (js : List Job)
      → ((j : Job) → is_foreground (f j) ≡ true → is_foreground j ≡ true)
      → foreground_count (update test f js) ≤ foreground_count js
  unfolding update foreground_count
  foreground_count-update test [] h = omega arith
  foreground_count-update test (j ∷ js) h = ground (arith, h j, foreground_count-update test js h)

  pub foreground_count-update-suc :
      (test : Job → Bool) (js : List Job)
      → foreground_count (update test f js) ≤ suc (foreground_count js)
  unfolding update foreground_count
  foreground_count-update-suc test [] = omega arith
  foreground_count-update-suc test (j ∷ js) = ground (arith, foreground_count-update-suc test js)

pub All-deletejob {ℓ} :
    (P : Job → Type ℓ) (jid : ℕ) (js : List Job) → All P js → All P (deletejob jid js).0
unfolding deletejob
All-deletejob P jid [] h = tt
All-deletejob P jid (j ∷ js) h = elim (Bool-cases (j.jid == jid)) [
  | inl t ↦ rw t h.1
  | inr t ↦ rw t (h.0, All-deletejob P jid js h.1)
]

pub foreground_count-deletejob :
    (jid : ℕ) (js : List Job) → foreground_count (deletejob jid js).0 ≤ foreground_count js
unfolding deletejob foreground_count
foreground_count-deletejob jid [] = omega arith
foreground_count-deletejob jid (j ∷ js) = ground (arith, foreground_count-deletejob jid js)
