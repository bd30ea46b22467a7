-- ===== src/Smartfood/DispatchJobs/Examples.antt =====
-- A job with two workers, and one that gives up.
use alpha_pos_server.Base.{
  ℕ, ◌+◌, ◌≡◌, refl, inl, true, false, none, some, [], ◌∷◌, get, put, arith,
}
use alpha_pos_server.Base.Int.{pos}
use alpha_pos_server.Base.Settings.{unset, integer}
use alpha_pos_server.Smartfood.PointSettlement.{pending, rejected}
use alpha_pos_server.Smartfood.DispatchJobs.{
  Job, job_pending, Queue, Policy, positive_setting, is_eligible, claim, claimed, finish, finished,
  reschedule, Run, process, returned,
}
use alpha_pos_server.Smartfood.DispatchJobs.Leases.{
  JobReach, begin, then_step, claims, finishes, claim_is_exclusive, done_job_is_final,
}
use alpha_pos_server.Smartfood.DispatchJobs.Retries.{process_all, Outcome, retries_end}

abbrev policy : Policy
policy = record {
  lease = unset;
  max_attempts = integer (pos 2);
  retry_base = unset;
  retry_max = unset;
}

abbrev job : Job
job = record {
  bot_order = 4;
  status = job_pending;
  attempts = 0;
  next_attempt_at = 90;
  locked_at = none;
  claim_token = none;
  finished_at = none;
  last_error = [];
}

abbrev queue : Queue
queue = record { jobs = (1, job) ∷ []; orders = (4, pending) ∷ [] }

abbrev taken : Queue
taken = record queue { jobs = (1, claimed 100 55 job) ∷ [] }

-- What a run computes with.
job_run : Queue → Queue
unfolding positive_setting is_eligible claim finish reschedule
job_run q = q

takes : claim policy 100 55 false 1 queue ≡ (taken, some (claimed 100 55 job))
unfolding job_run
takes = refl

-- Another worker forces a claim within the lease, and one with a stale token tries to finish.
abbrev meddled : Queue
meddled = (finish 130 1 54 [] (claim policy 120 56 true 1 taken).0).0

abbrev meddling : JobReach policy taken meddled
meddling = then_step (then_step begin (claims 120 56 true 1)) (finishes 130 1 54 [])

claim_is_exclusive_example :
    (get 1 meddled.jobs ≡ some (claimed 100 55 job))
    × (finish 140 1 55 [] meddled ≡ (
      record meddled { jobs = put 1 (finished 140 [] (claimed 100 55 job)) meddled.jobs },
      true,
    ))
unfolding job_run
claim_is_exclusive_example =
    claim_is_exclusive policy 100 140 55 false 1 [] queue taken meddled (claimed 100 55 job)
      meddling takes ((tt, omega arith), λ same. omega arith)

abbrev ended : Queue
ended = record taken { jobs = (1, finished 140 [] (claimed 100 55 job)) ∷ [] }

done_job_is_final_example :
    get 1 (claim policy 900 57 true 1 ended).0.jobs ≡ some (finished 140 [] (claimed 100 55 job))
done_job_is_final_example =
    done_job_is_final policy 1 (finished 140 [] (claimed 100 55 job))
      (then_step begin (claims 900 57 true 1)) refl refl

-- No terminal is connected, and a rejection is written.
abbrev dark_run : ℕ → Run
dark_run now = record {
  policy = policy;
  claimed_at = now;
  ended_at = now + 1;
  token = now;
  has_terminal = false;
  dispatch = λ oid orders. returned orders [] 500;
  reject = λ oid orders. some ((oid, rejected) ∷ []);
}

retries_end_example :
    (process (dark_run 50) 1 false queue ≡ (queue, false))
    × Outcome 1 4 2
        (dark_run 200)
        queue.orders
        (process_all (dark_run 100 ∷ dark_run 200 ∷ []) 1 queue)
unfolding positive_setting
retries_end_example =
    retries_end (dark_run 100 ∷ []) (dark_run 200) (dark_run 50) 1 2 queue job refl refl refl
      (refl, (refl, tt)) ((λ orders. inl refl), ((λ orders. inl refl), tt))
      (omega arith, (omega arith, tt)) (omega arith) (omega arith)
