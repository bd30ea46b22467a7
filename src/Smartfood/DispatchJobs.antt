-- ===== src/Smartfood/DispatchJobs.antt =====
-- The queue of bot orders to dispatch (smartfood/services/dispatch_job_service.py): claims under a
-- lease and a token, retries that back off, and the rejection that ends them.
-- Each of `claim`, `finish` and `reschedule` is one atomic step. What the dispatch service does to
-- the orders is an argument, and an order is its status; tokens and clock readings are numbers.
pub mod Leases
pub mod Delays
pub mod Retries
mod Examples
use alpha_pos_server.Base.{
  ℕ, ◌+◌, ◌-◌, ◌*◌, ◌^◌, Bool, true, false, not, ◌&&◌, ◌||◌, Option, none, some, List, [], ◌∷◌,
  ◌++◌, Table, Text, text, take_chars, is_blank, decimal, get, put, is_key, leb, ◌==◌, min, max,
  if◌then◌else◌,
}
use alpha_pos_server.Base.Int.{pos_part}
use alpha_pos_server.Base.Settings.{Setting, unset, not_a_number, integer}
use alpha_pos_server.Smartfood.PointSettlement.{BotStatus, pending}

pub data JobStatus : Type 0 where
  job_pending job_processing job_done : JobStatus

pub record Job : Type 0 where
  pub bot_order : ℕ
  pub status : JobStatus
  pub attempts : ℕ
  pub next_attempt_at : ℕ
  pub locked_at : Option ℕ
  pub claim_token : Option ℕ
  pub finished_at : Option ℕ
  pub last_error : Text

pub record Queue : Type 0 where
  pub jobs : Table Job
  pub orders : Table BotStatus

-- `_positive_setting`
unfoldable pub positive_setting : Setting → ℕ → ℕ
positive_setting unset default = max 1 default
positive_setting not_a_number default = default
positive_setting (integer n) default = max 1 (pos_part n)

pub record Policy : Type 0 where
  pub lease : Setting  -- SMARTFOOD_DISPATCH_LEASE_SECONDS
  pub max_attempts : Setting  -- SMARTFOOD_DISPATCH_MAX_ATTEMPTS
  pub retry_base : Setting  -- SMARTFOOD_DISPATCH_RETRY_BASE_SECONDS
  pub retry_max : Setting  -- SMARTFOOD_DISPATCH_RETRY_MAX_SECONDS

abbrev pub is_pending : JobStatus → Bool
is_pending job_pending = true
is_pending _ = false

abbrev pub is_processing : JobStatus → Bool
is_processing job_processing = true
is_processing _ = false

-- `locked_at <= now - lease`
abbrev pub is_stale : ℕ → ℕ → Option ℕ → Bool
is_stale lease now none = false
is_stale lease now (some t) = leb (t + lease) now

unfoldable pub is_eligible : Policy → ℕ → Bool → Job → Bool
is_eligible policy now force j =
    is_processing j.status && is_stale (positive_setting policy.lease 60) now j.locked_at
    || is_pending j.status && (force || leb j.next_attempt_at now)

abbrev pub claimed : ℕ → ℕ → Job → Job
claimed now token j = record j {
  status = job_processing;
  attempts = j.attempts + 1;
  locked_at = some now;
  claim_token = some token;
  last_error = [];
}

abbrev pub claim_job_row : Policy → ℕ → ℕ → Bool → ℕ → Option Job → Queue → Queue × Option Job
claim_job_row policy now token force id none q = (q, none)
claim_job_row policy now token force id (some j) q =
    if is_eligible policy now force j
    then (record q { jobs = put id (claimed now token j) q.jobs }, some (claimed now token j))
    else (q, none)

-- `_claim`; `token` is the new random token.
unfoldable pub claim : Policy → ℕ → ℕ → Bool → ℕ → Queue → Queue × Option Job
claim policy now token force id q = claim_job_row policy now token force id (get id q.jobs) q

-- The job is being processed under this token.
abbrev pub is_held : ℕ → Job → Bool
is_held token j = is_processing j.status && is_key token j.claim_token

abbrev pub finished : ℕ → Text → Job → Job
finished now message j = record j {
  status = job_done;
  locked_at = none;
  claim_token = none;
  finished_at = some now;
  last_error = take_chars 500 message;
}

abbrev pub finish_row : ℕ → ℕ → ℕ → Text → Option Job → Queue → Queue × Bool
finish_row now id token message none q = (q, false)
finish_row now id token message (some j) q =
    if is_held token j
    then (record q { jobs = put id (finished now message j) q.jobs }, true)
    else (q, false)

-- `_finish`
unfoldable pub finish : ℕ → ℕ → ℕ → Text → Queue → Queue × Bool
finish now id token message q = finish_row now id token message (get id q.jobs) q

-- The delay doubles with each attempt, six times at most.
unfoldable pub retry_delay : Policy → ℕ → ℕ
retry_delay policy attempts =
    min (positive_setting policy.retry_max 60)
      (positive_setting policy.retry_base 5 * 2 ^ min (attempts - 1) 6)

abbrev pub rescheduled : Policy → ℕ → Text → Job → Job
rescheduled policy now error j = record j {
  status = job_pending;
  next_attempt_at = now + retry_delay policy j.attempts;
  locked_at = none;
  claim_token = none;
  last_error = take_chars 500 (if is_blank error then text "Dispatch failed" else error);
}

abbrev pub reschedule_row : Policy → ℕ → ℕ → ℕ → Text → Option Job → Queue → Queue × Bool
reschedule_row policy now id token error none q = (q, false)
reschedule_row policy now id token error (some j) q =
    if is_held token j
    then (record q { jobs = put id (rescheduled policy now error j) q.jobs }, false)
    else (q, false)

-- `_reschedule`
unfoldable pub reschedule : Policy → ℕ → ℕ → ℕ → Text → Queue → Queue × Bool
reschedule policy now id token error q = reschedule_row policy now id token error (get id q.jobs) q

abbrev pub is_open : Option BotStatus → Bool
is_open (some pending) = true
is_open _ = false

-- What a call of the dispatch service did: it raised, which undoes its writes, or it returned with
-- the orders as they then are, its message and its HTTP status.
pub data Dispatched : Type 0 where
  raised : Text → Dispatched
  returned : Table BotStatus → Text → ℕ → Dispatched

-- What one run of a job draws and meets outside.
pub record Run : Type 0 where
  pub policy : Policy
  pub claimed_at : ℕ
  pub ended_at : ℕ
  pub token : ℕ
  pub has_terminal : Bool  -- an active cashier was found
  pub dispatch : ℕ → Table BotStatus → Dispatched
  pub reject : ℕ → Table BotStatus → Option (Table BotStatus)  -- none where it raises

abbrev pub finish_held : Run → ℕ → Text → Queue → Queue × Bool
finish_held run id message q = finish run.ended_at id run.token message q

abbrev pub retry : Run → ℕ → Text → Queue → Queue × Bool
retry run id error q = reschedule run.policy run.ended_at id run.token error q

-- The rejection of an order that has used up its attempts.
abbrev pub after_reject : Run → ℕ → ℕ → Text → Option (Table BotStatus) → Queue → Queue × Bool
after_reject run id oid error none q = retry run id error q
after_reject run id oid error (some orders) q =
    let q' = record q { orders = orders } in
    if is_open (get oid orders) then retry run id error q' else finish_held run id error q'

abbrev pub last_resort : Run → ℕ → ℕ → Text → Queue → Queue × Bool
last_resort run id oid error q =
    if is_open (get oid q.orders)
    then after_reject run id oid error (run.reject oid q.orders) q
    else finish_held run id error q

abbrev pub fail_row : Run → ℕ → Text → Option Job → Queue → Queue × Bool
fail_row run id error none q = (q, false)
fail_row run id error (some j) q =
    if not (is_held run.token j)
    then (q, false)
    else if leb (positive_setting run.policy.max_attempts 12) j.attempts
    then last_resort run id j.bot_order error q
    else retry run id error q

-- `_failed`
unfoldable pub failed : Run → ℕ → Text → Queue → Queue × Bool
failed run id error q = fail_row run id error (get id q.jobs) q

abbrev pub failure_text : Text → ℕ → Text
failure_text message status =
    if is_blank message then text "Dispatch returned HTTP " ++ decimal status else message

abbrev pub after_dispatch : Run → ℕ → ℕ → Dispatched → Queue → Queue × Bool
after_dispatch run id oid (raised error) q = failed run id (text "Dispatch raised: " ++ error) q
after_dispatch run id oid (returned orders message status) q =
    let q' = record q { orders = orders } in
    if is_open (get oid orders)
    then failed run id (failure_text message status) q'
    else finish_held run id [] q'

abbrev pub attempt : Run → ℕ → ℕ → Queue → Queue × Bool
attempt run id oid q =
    if not (is_open (get oid q.orders))
    then finish_held run id (text "Order was already handled") q
    else if not run.has_terminal
    then failed run id (text "No connected on-shift POS terminal is available") q
    else after_dispatch run id oid (run.dispatch oid q.orders) q

abbrev pub after_claim : Run → ℕ → Queue × Option Job → Queue × Bool
after_claim run id (q, none) = (q, false)
after_claim run id (q, some j) = attempt run id j.bot_order q

-- `process`, with the rows of the orders staying in their table while it runs.
unfoldable pub process : Run → ℕ → Bool → Queue → Queue × Bool
process run id force q = after_claim run id (claim run.policy run.claimed_at run.token force id q)
