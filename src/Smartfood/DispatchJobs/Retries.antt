-- ===== src/Smartfood/DispatchJobs/Retries.antt =====
-- Retries of dispatch jobs (smartfood/services/dispatch_job_service.py, _failed, _reschedule).
use mathlib.Core.Path.{subst}
use alpha_pos_server.Base.{
  Bool-cases, Option, none, not, Bool, ℕ, ◌+◌, ◌≤◌, ◌<◌, ◌≡◌, ◌⊎◌, inl, inr, refl, ap, ◌∙◌, true,
  false, some, List, [], ◌∷◌, ◌++◌, Table, Text, text, arith, get, put, get-put_self, ==_refl, leb,
  length,
}
use alpha_pos_server.Smartfood.PointSettlement.{BotStatus}
use alpha_pos_server.Smartfood.DispatchJobs.{
  returned, failure_text, Job, job_pending, job_done, Queue, positive_setting, is_eligible, claim,
  claimed, finish, finished, reschedule, rescheduled, is_held, is_open, Run, raised, failed,
  process, attempt, after_claim,
}
use alpha_pos_server.Smartfood.DispatchJobs.Delays.{retry_delay-bounds}

-- The runs of one job, one after the other, as the worker's loop makes them.
abbrev pub process_all : List Run → ℕ → Queue → Queue
process_all [] id q = q
process_all (run ∷ runs) id q = process_all runs id (process run id false q).0

-- A run that meets no terminal, or whose dispatch raises or is refused and leaves the orders.
abbrev pub IsFutile : ℕ → Run → Type 0
IsFutile oid run =
    (orders : Table BotStatus)
    → (run.has_terminal ≡ false)
      ⊎ ((run.has_terminal ≡ true)
          × (((e : Text) × (run.dispatch oid orders ≡ raised e))
              ⊎ ((message : Text) × (status : ℕ) × (run.dispatch oid orders
                    ≡ returned orders message status))))

-- Each run starts when the wait that the configured ceiling allows is over, the first at `due`.
abbrev pub Spaced : ℕ → List Run → Type 0
Spaced due [] = Unit
Spaced due (run ∷ runs) =
    (due ≤ run.claimed_at) × Spaced (run.ended_at + positive_setting run.policy.retry_max 60) runs

-- What the rejection of an order answered.
abbrev pub closes : ℕ → Option (Table BotStatus) → Bool
closes oid none = false
closes oid (some orders) = not (is_open (get oid orders))

abbrev pub AllOf : (Run → Type 0) → List Run → Type 0
AllOf p [] = Unit
AllOf p (run ∷ runs) = p run × AllOf p runs

-- The job waits, after `n` attempts, for an order that is open, and is due by `due`.
abbrev pub Waiting : ℕ → ℕ → ℕ → ℕ → Queue → Type 0
Waiting id oid n due q =
    (j : Job) × (get id q.jobs ≡ some j)
    × (j.status ≡ job_pending)
    × (j.bot_order ≡ oid)
    × (j.attempts ≡ n)
    × (j.next_attempt_at ≤ due)
    × (is_open (get oid q.orders) ≡ true)

-- The job is done and its order is open no more.
abbrev pub Ended : ℕ → ℕ → Queue → Type 0
Ended id oid q =
    (j : Job) × (get id q.jobs ≡ some j)
    × (j.status ≡ job_done)
    × (is_open (get oid q.orders) ≡ false)

-- What a run at the last attempt leaves: the job is done if the rejection closed the order, and
-- waits for the next try if it did not.
abbrev pub Outcome : ℕ → ℕ → ℕ → Run → Table BotStatus → Queue → Type 0
Outcome id oid n run orders q =
    ((closes oid (run.reject oid orders) ≡ true) × Ended id oid q)
    ⊎ ((closes oid (run.reject oid orders) ≡ false)
        × Waiting id oid n (run.ended_at + positive_setting run.policy.retry_max 60) q)

-- A job that was just claimed for an open order.
record Held (run : Run) (id oid n : ℕ) (q : Queue) : Type 0 where
  job : Job
  found : get id q.jobs ≡ some job
  held : is_held run.token job ≡ true
  order : job.bot_order ≡ oid
  count : job.attempts ≡ n
  open_order : is_open (get oid q.orders) ≡ true

due_again :
    (run : Run) (j : Job) (error : Text)
    → (rescheduled run.policy run.ended_at error j).next_attempt_at
      ≤ run.ended_at + positive_setting run.policy.retry_max 60
due_again run j error =
    let (least, most, rest, grows) =
      retry_delay-bounds run.policy j.attempts j.attempts (omega arith) in
    omega arith

-- A failure that is not the last.
failed_retries :
    (run : Run) (id oid n : ℕ) (error : Text) (q : Queue)
    → Held run id oid n q
    → leb (positive_setting run.policy.max_attempts 12) n ≡ false
    → Waiting id oid n
        (run.ended_at + positive_setting run.policy.retry_max 60)
        (failed run id error q).0
      × ((failed run id error q).0.orders ≡ q.orders)
unfolding failed reschedule
failed_retries run id oid n error q h left =
    rw (h.found, h.held, h.count, left, h.found, h.held)
      (
        (
          rescheduled run.policy run.ended_at error h.job,
          get-put_self id _ q.jobs,
          refl,
          h.order,
          h.count,
          due_again run h.job error,
          h.open_order,
        ),
        refl,
      )

failed_ends :
    (run : Run) (id oid n : ℕ) (error : Text) (q : Queue)
    → Held run id oid n q
    → leb (positive_setting run.policy.max_attempts 12) n ≡ true
    → Outcome id oid n run q.orders (failed run id error q).0
unfolding failed finish reschedule
failed_ends run id oid n error q h over = by_answer (run.reject oid q.orders) refl
  where
    by_answer :
        (o : Option (Table BotStatus))
        → run.reject oid q.orders ≡ o
        → Outcome id oid n run q.orders (failed run id error q).0
    by_answer none e =
        rw (h.found, h.held, h.count, over, h.order, h.open_order, e, h.found, h.held)
          (inr (
            refl,
            (
              rescheduled run.policy run.ended_at error h.job,
              get-put_self id _ q.jobs,
              refl,
              h.order,
              h.count,
              due_again run h.job error,
              h.open_order,
            ),
          ))
    by_answer (some after) e = elim (Bool-cases (is_open (get oid after))) [
      | inl still ↦
          rw (h.found, h.held, h.count, over, h.order, h.open_order, e, still, h.found, h.held)
            (inr (
              refl,
              (
                rescheduled run.policy run.ended_at error h.job,
                get-put_self id _ q.jobs,
                refl,
                h.order,
                h.count,
                due_again run h.job error,
                still,
              ),
            ))
      | inr shut ↦
          rw (h.found, h.held, h.count, over, h.order, h.open_order, e, shut, h.found, h.held)
            (inl (refl, (finished run.ended_at error h.job, get-put_self id _ q.jobs, refl, shut)))
    ]

abbrev claimed_queue : Run → ℕ → Job → Queue → Queue
claimed_queue run id j q = record q { jobs = put id (claimed run.claimed_at run.token j) q.jobs }

attempt_fails :
    (run : Run) (id oid : ℕ) (q : Queue)
    → is_open (get oid q.orders) ≡ true
    → IsFutile oid run
    → (error : Text) × (attempt run id oid q ≡ failed run id error q)
attempt_fails run id oid q open_order futile = elim (futile q.orders) [
  | inl dark ↦ (text "No connected on-shift POS terminal is available", rw (open_order, dark) refl)
  | inr (lit, inl (e, fell)) ↦ (text "Dispatch raised: " ++ e, rw (open_order, lit, fell) refl)
  | inr (lit, inr (message, status, refused)) ↦
      (failure_text message status, rw (open_order, lit, refused, open_order) refl)
]

claim_waiting :
    (run : Run) (id : ℕ) (q : Queue) (j : Job)
    → get id q.jobs ≡ some j
    → j.status ≡ job_pending
    → j.next_attempt_at ≤ run.claimed_at
    → claim run.policy run.claimed_at run.token false id q
      ≡ (claimed_queue run id j q, some (claimed run.claimed_at run.token j))
unfolding claim is_eligible
claim_waiting run id q j found waits due =
    let in_time : leb j.next_attempt_at run.claimed_at ≡ true = ground arith in
    rw (found, waits, in_time) refl

process_fails :
    (run : Run) (id oid n due : ℕ) (q : Queue)
    → IsFutile oid run
    → Waiting id oid n due q
    → due ≤ run.claimed_at
    → (error : Text) × (mid : Queue) × (process run id false q ≡ failed run id error mid)
      × (mid.orders ≡ q.orders)
      × Held run id oid (n + 1) mid
unfolding process
process_fails run id oid n due q futile (j, found, waits, order, count, ready, open_order) in_time =
    let mid = claimed_queue run id j q in
    let (error, e) = attempt_fails run id oid mid open_order futile in
    (
      error,
      mid,
      ap (after_claim run id) (claim_waiting run id q j found waits (omega arith))
          ∙ ap (λ o. attempt run id o mid) order
          ∙ e,
      refl,
      record {
        job = claimed run.claimed_at run.token j;
        found = get-put_self id _ q.jobs;
        held = ==_refl run.token;
        order = order;
        count = ap (λ a. a + 1) count;
        open_order = open_order;
      },
    )

-- One run that is not the last.
process_waits :
    (run : Run) (id oid n due limit : ℕ) (q : Queue)
    → positive_setting run.policy.max_attempts 12 ≡ limit
    → IsFutile oid run
    → Waiting id oid n due q
    → due ≤ run.claimed_at
    → n + 1 < limit
    → let q' = (process run id false q).0 in
      Waiting id oid (n + 1) (run.ended_at + positive_setting run.policy.retry_max 60) q'
      × (q'.orders ≡ q.orders)
process_waits run id oid n due limit q limited futile waiting in_time below =
    let (error, mid, e, same, held) = process_fails run id oid n due q futile waiting in_time in
    let (waits, kept) =
      failed_retries run id oid (n + 1) error mid held (rw limited (ground arith)) in
    rw e (waits, kept ∙ same)

process_last :
    (run : Run) (id oid n due limit : ℕ) (q : Queue)
    → positive_setting run.policy.max_attempts 12 ≡ limit
    → IsFutile oid run
    → Waiting id oid n due q
    → due ≤ run.claimed_at
    → n + 1 ≡ limit
    → Outcome id oid (n + 1) run q.orders (process run id false q).0
process_last run id oid n due limit q limited futile waiting in_time last =
    let (error, mid, e, same, held) = process_fails run id oid n due q futile waiting in_time in
    rw e (
      subst (λ o. Outcome id oid (n + 1) run o (failed run id error mid).0) same
        (failed_ends run id oid (n + 1) error mid held (rw limited (ground arith))))

-- The runs of a job that waits.
attempts_end :
    (runs : List Run) (last : Run) (id oid n due limit : ℕ) (q : Queue)
    → AllOf (λ run. positive_setting run.policy.max_attempts 12 ≡ limit) (runs ++ last ∷ [])
    → AllOf (IsFutile oid) (runs ++ last ∷ [])
    → Spaced due (runs ++ last ∷ [])
    → n + length runs + 1 ≡ limit
    → Waiting id oid n due q
    → Outcome id oid limit last q.orders (process_all (runs ++ last ∷ []) id q)
attempts_end [] last id oid n due limit q (limited, u) (futile, v) (in_time, w) count waiting =
    let at_limit : n + 1 ≡ limit = omega arith in
    subst (λ k. Outcome id oid k last q.orders (process last id false q).0) at_limit
      (process_last last id oid n due limit q limited futile waiting in_time at_limit)
attempts_end (run ∷ runs) last id oid n due limit q (limited, us) (futile, vs) (in_time, ws) count
      waiting =
    let (waits, kept) =
      process_waits run id oid n due limit q limited futile waiting in_time (omega arith) in
    subst (λ o. Outcome id oid limit last o (process_all (run ∷ runs ++ last ∷ []) id q)) kept
      (attempts_end runs last id oid (n + 1)
        (run.ended_at + positive_setting run.policy.retry_max 60) limit (process run id false q).0
        us vs ws (omega arith) waits)

-- Attempts end. A pending job of an open order is run by the worker's loop without success (no
-- terminal, or a dispatch that raises or is refused and leaves the orders), each time when the job
-- is due by the longest wait that the settings allow, until its attempts are the configured maximum.
-- No such run finds the job not due, and one before its time changes nothing. At the last one the
-- order is rejected: if that closes it, the job is done and the order open no more, and if not, the
-- job waits with the maximum of attempts, for a next try within the longest wait.
pub retries_end :
    (runs : List Run) (last early : Run) (id limit : ℕ) (q : Queue) (j : Job)
    → get id q.jobs ≡ some j
    → j.status ≡ job_pending
    → is_open (get j.bot_order q.orders) ≡ true
    → AllOf (λ run. positive_setting run.policy.max_attempts 12 ≡ limit) (runs ++ last ∷ [])
    → AllOf (IsFutile j.bot_order) (runs ++ last ∷ [])
    → Spaced j.next_attempt_at (runs ++ last ∷ [])
    → j.attempts + length runs + 1 ≡ limit
    → early.claimed_at < j.next_attempt_at
    → (process early id false q ≡ (q, false))
      × Outcome id j.bot_order limit last q.orders (process_all (runs ++ last ∷ []) id q)
unfolding process claim is_eligible
retries_end runs last early id limit q j found waits open_order limited futile spaced count before =
    let in_time : leb j.next_attempt_at early.claimed_at ≡ false = ground arith in
    (
      rw (found, waits, in_time) refl,
      attempts_end runs last id j.bot_order j.attempts j.next_attempt_at limit q limited futile
          spaced count (j, found, waits, refl, refl, omega arith, open_order),
    )
