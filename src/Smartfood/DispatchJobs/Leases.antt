-- ===== src/Smartfood/DispatchJobs/Leases.antt =====
-- Leases of dispatch jobs (smartfood/services/dispatch_job_service.py, _claim).
use alpha_pos_server.Base.{
  ℕ, ◌+◌, ◌<◌, ◌≡◌, ◌≢◌, refl, sym, ap, ◌∙◌, Bool, true, false, Option, none, some, Table, Text,
  arith, get, put, get-put_self, get-put_ne, ◌==◌, ==_refl, ==→eq, ==→ne, Bool-cases, inl, inr,
  some_inv, none-ne-some, true-ne-false, if◌then◌else◌,
}
use alpha_pos_server.Smartfood.DispatchJobs.{
  Job, job_processing, job_done, Queue, Policy, positive_setting, is_eligible, claim, claim_job_row,
  claimed, finish, finish_row, finished, reschedule, reschedule_row, rescheduled, is_held,
}

-- One atomic step of some worker, or a change of the orders.
pub data JobStep (policy : Policy) : Queue → Queue → Type 0 where
  claims :
      {q : Queue} (now token : ℕ) (force : Bool) (id : ℕ)
      → JobStep policy q (claim policy now token force id q).0
  finishes :
      {q : Queue} (now id token : ℕ) (message : Text)
      → JobStep policy q (finish now id token message q).0
  reschedules :
      {q : Queue} (now id token : ℕ) (error : Text)
      → JobStep policy q (reschedule policy now id token error q).0
  orders_change : {q q' : Queue} → q'.jobs ≡ q.jobs → JobStep policy q q'

pub data JobReach (policy : Policy) : Queue → Queue → Type 0 where
  begin : {q : Queue} → JobReach policy q q
  then_step :
      {q mid end : Queue} → JobReach policy q mid → JobStep policy mid end → JobReach policy q end

-- The step comes from another worker: its claims are before `limit`, and it does not carry `token`.
abbrev pub IsForeign : ℕ → ℕ → {policy : Policy} {q q' : Queue} → JobStep policy q q' → Type 0
IsForeign limit mine (claims now token force id) = now < limit
IsForeign limit mine (finishes now id token message) = token ≢ mine
IsForeign limit mine (reschedules now id token error) = token ≢ mine
IsForeign limit mine (orders_change same) = Unit

abbrev pub AllForeign : ℕ → ℕ → {policy : Policy} {q q' : Queue} → JobReach policy q q' → Type 0
AllForeign limit mine begin = Unit
AllForeign limit mine (then_step reach step) =
    AllForeign limit mine reach × IsForeign limit mine step

-- A row that the test refuses is not the one that is written.
kept :
    (id k : ℕ) (i j new : Job) (jobs : Table Job) (test : Job → Bool)
    → get id jobs ≡ some j
    → get k jobs ≡ some i
    → (k ≡ id → test j ≡ false)
    → test i ≡ true
    → get id (put k new jobs) ≡ some j
kept id k i j new jobs test found written refused passed = elim (Bool-cases (id == k)) [
  | inl same ↦
      let at_id = ==→eq id k same in
      let i_eq = some_inv (sym written ∙ ap (λ x. get x jobs) (sym at_id) ∙ found) in
      true-ne-false (sym passed ∙ ap test i_eq ∙ refused (sym at_id))
  | inr other ↦ get-put_ne id k new jobs (==→ne id k other) ∙ found
]

claim-keeps :
    (policy : Policy) (now token : ℕ) (force : Bool) (k id : ℕ) (q : Queue) (j : Job)
    → get id q.jobs ≡ some j
    → (k ≡ id → is_eligible policy now force j ≡ false)
    → get id (claim policy now token force k q).0.jobs ≡ some j
unfolding claim
claim-keeps policy now token force k id q j found refused = by_row (get k q.jobs) refl
  where
    by_row :
        (o : Option Job)
        → get k q.jobs ≡ o
        → get id (claim_job_row policy now token force k o q).0.jobs ≡ some j
    by_row none missing = found
    by_row (some i) there = elim (Bool-cases (is_eligible policy now force i)) [
      | inl e ↦ rw e (
          kept id k i j (claimed now token i) q.jobs (is_eligible policy now force) found there
            refused e)
      | inr e ↦ rw e found
    ]

finish-keeps :
    (now k token : ℕ) (message : Text) (id : ℕ) (q : Queue) (j : Job)
    → get id q.jobs ≡ some j
    → (k ≡ id → is_held token j ≡ false)
    → get id (finish now k token message q).0.jobs ≡ some j
unfolding finish
finish-keeps now k token message id q j found refused = by_row (get k q.jobs) refl
  where
    by_row :
        (o : Option Job)
        → get k q.jobs ≡ o
        → get id (finish_row now k token message o q).0.jobs ≡ some j
    by_row none missing = found
    by_row (some i) there = elim (Bool-cases (is_held token i)) [
      | inl e ↦
          rw e (kept id k i j (finished now message i) q.jobs (is_held token) found there refused e)
      | inr e ↦ rw e found
    ]

reschedule-keeps :
    (policy : Policy) (now k token : ℕ) (error : Text) (id : ℕ) (q : Queue) (j : Job)
    → get id q.jobs ≡ some j
    → (k ≡ id → is_held token j ≡ false)
    → get id (reschedule policy now k token error q).0.jobs ≡ some j
unfolding reschedule
reschedule-keeps policy now k token error id q j found refused = by_row (get k q.jobs) refl
  where
    by_row :
        (o : Option Job)
        → get k q.jobs ≡ o
        → get id (reschedule_row policy now k token error o q).0.jobs ≡ some j
    by_row none missing = found
    by_row (some i) there = elim (Bool-cases (is_held token i)) [
      | inl e ↦ rw e (
          kept id k i j (rescheduled policy now error i) q.jobs (is_held token) found there refused
            e)
      | inr e ↦ rw e found
    ]

-- A row that is held since `start` under `mine`.
abbrev pub HeldSince : ℕ → ℕ → Job → Type 0
HeldSince start mine j =
    (j.status ≡ job_processing) × (j.locked_at ≡ some start) × (j.claim_token ≡ some mine)

held_refuses_claim :
    (policy : Policy) (now start mine : ℕ) (force : Bool) (j : Job)
    → HeldSince start mine j
    → now < start + positive_setting policy.lease 60
    → is_eligible policy now force j ≡ false
unfolding is_eligible
held_refuses_claim policy now start mine force j (status, locked, token) early =
    rw (status, locked) (ground arith)

held_refuses_token :
    (start mine token : ℕ) (j : Job)
    → HeldSince start mine j
    → token ≢ mine
    → is_held token j ≡ false
held_refuses_token start mine token j (status, locked, mine_eq) apart =
    rw (status, mine_eq) (ground arith)

foreign_step :
    (policy : Policy) (start mine id : ℕ) (j : Job) {q q' : Queue} (step : JobStep policy q q')
    → HeldSince start mine j
    → IsForeign (start + positive_setting policy.lease 60) mine step
    → get id q.jobs ≡ some j
    → get id q'.jobs ≡ some j
foreign_step policy start mine id j {q} (claims now token force k) held early found =
    claim-keeps policy now token force k id q j found
      (λ same. held_refuses_claim policy now start mine force j held early)
foreign_step policy start mine id j {q} (finishes now k token message) held apart found =
    finish-keeps now k token message id q j found
      (λ same. held_refuses_token start mine token j held apart)
foreign_step policy start mine id j {q} (reschedules now k token error) held apart found =
    reschedule-keeps policy now k token error id q j found
      (λ same. held_refuses_token start mine token j held apart)
foreign_step policy start mine id j (orders_change same) held foreign found =
    ap (get id) same ∙ found

foreign_reach :
    (policy : Policy) (start mine id : ℕ) (j : Job) {q q' : Queue} (reach : JobReach policy q q')
    → HeldSince start mine j
    → AllForeign (start + positive_setting policy.lease 60) mine reach
    → get id q.jobs ≡ some j
    → get id q'.jobs ≡ some j
foreign_reach policy start mine id j begin held foreign found = found
foreign_reach policy start mine id j (then_step reach step) held (before, last) found =
    foreign_step policy start mine id j step held last
      (foreign_reach policy start mine id j reach held before found)

claim_inv :
    (policy : Policy) (now token : ℕ) (force : Bool) (id : ℕ) (q q' : Queue) (j : Job)
    → claim policy now token force id q ≡ (q', some j)
    → (get id q'.jobs ≡ some j) × HeldSince now token j
unfolding claim
claim_inv policy now token force id q q' j h = by_row (get id q.jobs) h
  where
    by_test :
        (b : Bool) (i : Job)
        → (let r : Queue × Option Job =
              if b
              then (
                record q { jobs = put id (claimed now token i) q.jobs },
                some (claimed now token i),
              )
              else (q, none) in
            r)
          ≡ (q', some j)
        → (get id q'.jobs ≡ some j) × HeldSince now token j
    by_test true i e =
        let row = some_inv (ap (λ x. x.1) e) in
        (
          ap (λ x. get id x.0.jobs) (sym e)
              ∙ get-put_self id (claimed now token i) q.jobs
              ∙ ap some row,
          (
            ap (λ x. x.status) (sym row),
            ap (λ x. x.locked_at) (sym row),
            ap (λ x. x.claim_token) (sym row),
          ),
        )
    by_test false i e = none-ne-some (ap (λ x. x.1) e)

    by_row :
        (o : Option Job)
        → claim_job_row policy now token force id o q ≡ (q', some j)
        → (get id q'.jobs ≡ some j) × HeldSince now token j
    by_row none e = none-ne-some (ap (λ x. x.1) e)
    by_row (some i) e = by_test (is_eligible policy now force i) i e

-- A worker that has claimed a job holds it alone while its lease runs: whatever other workers do in
-- that time, to this job and others, without the claim's token (claims, forced ones included,
-- finishes and reschedules, also of workers whose own lease ran out), the job's row is exactly as
-- claimed, and the worker's own finish succeeds and marks it done.
pub claim_is_exclusive :
    (policy : Policy) (start later mine : ℕ) (force : Bool) (id : ℕ) (message : Text)
    (q q1 q2 : Queue) (j : Job) (reach : JobReach policy q1 q2)
    → claim policy start mine force id q ≡ (q1, some j)
    → AllForeign (start + positive_setting policy.lease 60) mine reach
    → (get id q2.jobs ≡ some j)
      × (finish later id mine message q2
          ≡ (record q2 { jobs = put id (finished later message j) q2.jobs }, true))
unfolding finish
claim_is_exclusive policy start later mine force id message q q1 q2 j reach taken foreign =
    let (found, (status, locked, token)) = claim_inv policy start mine force id q q1 j taken in
    let still = foreign_reach policy start mine id j reach (status, locked, token) foreign found in
    (still, rw (still, status, token, ==_refl mine) refl)

done_step :
    (policy : Policy) (id : ℕ) (j : Job) {q q' : Queue}
    → JobStep policy q q'
    → j.status ≡ job_done
    → get id q.jobs ≡ some j
    → get id q'.jobs ≡ some j
unfolding is_eligible
done_step policy id j {q} (claims now token force k) over found =
    claim-keeps policy now token force k id q j found (λ same. rw over refl)
done_step policy id j {q} (finishes now k token message) over found =
    finish-keeps now k token message id q j found (λ same. rw over refl)
done_step policy id j {q} (reschedules now k token error) over found =
    reschedule-keeps policy now k token error id q j found (λ same. rw over refl)
done_step policy id j (orders_change same) over found = ap (get id) same ∙ found

-- A finished job is never run again: its row keeps every column through all later steps.
pub done_job_is_final :
    (policy : Policy) (id : ℕ) (j : Job) {q q' : Queue}
    → JobReach policy q q'
    → j.status ≡ job_done
    → get id q.jobs ≡ some j
    → get id q'.jobs ≡ some j
done_job_is_final policy id j begin over found = found
done_job_is_final policy id j (then_step reach step) over found =
    done_step policy id j step over (done_job_is_final policy id j reach over found)
