-- ===== src/Core/Job/Drained.antt =====
-- What is left of the jobs that a run takes up.
use getupnet.Prelude.{
  ℕ, ◌≡◌, refl, sym, subst, ap, ◌∙◌, inl, inr, Bool, true, false, some, List, [], ◌∷◌, leb, take,
  All, Bool-cases, Option-cases, arith,
}
use getupnet.Prelude.Effects.{Action, Result, ok, err, for_each}
use getupnet.Prelude.Invariant.{Maintains, Maintains-for_each}
use getupnet.Prelude.Sequence.{first_ok, then_ok}
use getupnet.Prelude.Rows.{browse}
use getupnet.Database.{Database}
use getupnet.Database.Core.{Job, JobState}
use mathlib.Core.Option.{some-injective}
use native.Mathlib.Decide.{ℕ_discrete}
use getupnet.Core.Job.{is_queued, execute, cron_run_pending_jobs}
use getupnet.Platform.{Platform}
use getupnet.Core.Job.Outcome.{
  KeepsJobs, ended, begun, outcome, started, execute_lem, execute_others, execute_missing,
}

abbrev pub is_running : JobState → Bool
is_running JobState.running = true
is_running _ = false

abbrev pub is_ended : JobState → Bool
is_ended JobState.success = true
is_ended JobState.failed = true
is_ended _ = false

-- No job is running.
abbrev pub AllRest : Database → Type 0
AllRest db = (i : ℕ) (job : Job) → browse i db.jobs ≡ some job → is_running job.state ≡ false

-- A job that is there has ended.
abbrev pub EndedAt : ℕ → Database → Type 0
EndedAt i db = (job : Job) → browse i db.jobs ≡ some job → is_ended job.state ≡ true

ended-state : (r : Result (Unit {0})) (job : Job) → is_ended (ended r job).state ≡ true
ended-state (ok a) job = refl
ended-state (err e) job = refl

rests_of_ended : (s : JobState) → is_ended s ≡ true → is_running s ≡ false
rests_of_ended s h = ground (arith, h)

ended_of_idle : (s : JobState) → is_running s ≡ false → is_queued s ≡ false → is_ended s ≡ true
ended_of_idle s h k = ground (arith, h, k)

module _ (dispatch : ℕ → Action Database (Unit {0})) where
  outcome-ended :
      (i : ℕ) (db : Database) (job : Job)
      → is_running job.state ≡ false
      → is_ended (outcome dispatch i db job).state ≡ true
  outcome-ended i db job rests = elim (Bool-cases (is_queued job.state)) [
    | inr idle ↦ rw idle (ended_of_idle job.state rests idle)
    | inl queued ↦ rw queued (elim (Bool-cases (leb job.max_attempts job.attempts)) [
      | inl spent ↦ rw spent refl
      | inr left ↦ rw left (ended-state (dispatch i (started i db)).0 (begun db.now job))
    ])
  ]

  module _ (keeps : KeepsJobs dispatch) where
    execute-EndedAt : (i : ℕ) (db : Database) → AllRest db → EndedAt i (execute dispatch i db).1
    execute-EndedAt i db rest job found = elim (Option-cases (browse i db.jobs)) [
      | inl gone ↦
          absurd (ground (arith, gone, rw (execute_missing dispatch keeps i db gone) at found))
      | inr (old, was) ↦
          let now_is = some-injective _ _ (sym (execute_lem dispatch keeps i db was).1 ∙ found) in
          subst (λ (row : Job). is_ended row.state ≡ true) now_is
            (outcome-ended i db old (rest i old was))
    ]

    execute-AllRest : (i : ℕ) (db : Database) → AllRest db → AllRest (execute dispatch i db).1
    execute-AllRest i db rest j job found = elim (ℕ_discrete j i) [
      | yes same ↦ rests_of_ended job.state (execute-EndedAt i db rest job (rw same at found))
      | no ne ↦ rest j job (rw (execute_others dispatch keeps i j db ne) at found)
    ]

    -- Nothing undoes the end of a job.
    execute-keeps : (i j : ℕ) → Maintains (λ db. AllRest db × EndedAt j db) (execute dispatch i)
    execute-keeps i j = record {
      at = λ db (rest, done). (
        execute-AllRest i db rest,
        λ job found. elim (ℕ_discrete j i) [
          | yes same ↦ execute-EndedAt i db rest job (rw same at found)
          | no ne ↦ done job (rw (execute_others dispatch keeps i j db ne) at found)
        ],
      );
    }

    pub for_each-EndedAt :
        (l : List ℕ) (db : Database)
        → AllRest db
        → (for_each l (execute dispatch) db).0 ≡ ok tt
        → All (λ i. EndedAt i (for_each l (execute dispatch) db).1) l
    unfolding for_each
    for_each-EndedAt [] db rest goes = tt
    for_each-EndedAt (i ∷ l) db rest goes =
        let one = execute dispatch i in
        let others = for_each l (execute dispatch) in
        let same = then_ok one others db (first_ok one others db goes) in
        let rest1 = execute-AllRest i db rest in
        let kept = Maintains-for_each l (execute dispatch) (λ k. execute-keeps k i) in
        subst (λ p. All (λ k. EndedAt k p.1) (i ∷ l)) (sym same)
          (
            (kept.at (one db).1 (rest1, execute-EndedAt i db rest)).1,
            for_each-EndedAt l (one db).1 rest1 (ap (λ p. p.0) (sym same) ∙ goes),
          )

    pub cron-EndedAt :
        ⦃platform : Platform⦄ (db : Database)
        → AllRest db
        → (cron_run_pending_jobs dispatch db).0 ≡ ok tt
        → All
            (λ i. EndedAt i (cron_run_pending_jobs dispatch db).1)
            (take 20 (platform.search Job (λ _ job. is_queued job.state) db.jobs))
    unfolding cron_run_pending_jobs
    cron-EndedAt ⦃platform⦄ db =
        for_each-EndedAt (take 20 (platform.search Job (λ _ job. is_queued job.state) db.jobs)) db
