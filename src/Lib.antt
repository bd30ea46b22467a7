-- ===== src/Lib.antt =====
-- Verification of the Alpha POS server: a shallow model of its services and proofs about it.
--
-- A database table is a list of rows by primary key (`Base.Tables`). An operation takes the state
-- and returns the new one; one atomic block is one step, so a refusal or a raised error is an `err`
-- with no state. What runs after a commit is a list of effects in the state. Keys, clock readings,
-- digests and random values are numbers, and what is drawn at random or read from the clock is an
-- argument. Integers are `Base.Int.ℤ` over the native numbers, money is whole so'm or hundredths as
-- the columns have it, and the integers of the language are unbounded, as Python's are. `Base` has
-- what the parts share: tests, results, texts, tables, integers, settings and the division of
-- decimals, which rounds to 28 digits (`Base.Quotients`).
--
-- Courier dispatch (couriers/services.py, couriers/models.py): `Couriers.Records` has the columns,
-- and `Couriers.Dispatch` the services that move an assignment: assign, accept, decline, mark_ready
-- and advance_status, with their guards, writes, events and feed rows. The modules below it have
-- the lemmas on single calls (`Writes`, `Cleared`, `Progress`, `Outcomes`) and on sequences of calls
-- (`Exclusive`, `Final`); the other parts are laid out in the same way, with the runs on concrete
-- states in `Examples`.
-- Courier money (couriers/services.py): `Couriers.Ledger` says which refunds reverse a courier's
-- collections (courier_refund_events) and with which share (courier_refund_entries);
-- `Couriers.Settling` has unsettled_start, reconciliation_snapshot and settle, which use it.
-- Courier payments (couriers/payments.py): `Couriers.Evidence` has _payment_evidence,
-- _capacity_error and _recompute_order_paid; `Couriers.Receipts` the tables of the payment calls and
-- _ensure_external_payment_evidence; `Couriers.Asks` the checks of a request, `Couriers.Payments`
-- create_payment and `Couriers.Webhook` refund_payment and apply_webhook. Their answer holds the
-- tables as committed, with a refusal too, since an early return there commits.
-- Courier credentials (couriers/tokens.py): `Couriers.Tokens` has the one-time login claims and the
-- rotating families of refresh tokens.
-- The points club (smartfood/services/loyalty_service.py): `Smartfood.Loyalty` has record, redeem,
-- award_scan, grant and fulfill. The loop that draws a gift's code until it is new runs over the
-- list of the codes that are drawn; where the list ends before a new code, there is no result, and
-- a new code in it is enough. A purchase's amount is a finite decimal in the range of the language.
-- `Smartfood.PointSettlement` has reconcile_bot_order_loyalty
-- (smartfood/services/loyalty_settlement_service.py), which writes that ledger.
-- The dispatch queue (smartfood/services/dispatch_job_service.py): `Smartfood.DispatchJobs` has the
-- claims, finishes and retries of the jobs that turn bot orders into POS orders. What the dispatch
-- and the rejection do to the orders are arguments of a run.
-- Input checks (smartfood/services/order_input.py): `Smartfood.OrderInput` normalises the cart and
-- the other fields of an order's payload; the parse of a UUID is left to the standard library.
-- Bot orders: `Smartfood.Desk` has their tables and the messages on them (queue_order_status of
-- smartfood/services/outbound_message_service.py), `Smartfood.Checkout` the creation of an order
-- (smartfood/services/order_service.py) and `Smartfood.Handling` its cancellation, rejection and
-- dispatch (smartfood/services/dispatch_service.py). They use the input checks, the cart, the club
-- and the settlement of points.
-- The outbox (smartfood/services/outbound_message_service.py): `Smartfood.Outbox` has the messages,
-- how an event of an order is queued and how a message is claimed, `Smartfood.Outbox.Reports` the
-- reports on them and the counts of a broadcast, and `Smartfood.Outbox.Sending` the loop of a
-- worker, of at most 500 turns. `Smartfood.Desk` knows of the same messages only that they are there.
-- Cart pricing (smartfood/services/cart_service.py): `Smartfood.Cart` prices the lines of a cart
-- from the catalogue and computes the totals of the order.
--
-- Every loop is structural recursion on the rows or items it runs over; `Base.Texts.decimal` prints
-- a number with the number itself as fuel, which is more than its digits.
--
-- Not modelled: the core (base/), which this repository only imports: its columns are fields, its
-- session repository, its tender check and its refund ledger are arguments. Left out are the
-- exchange with Telegram, the services of admins/, and the views, serializers, sockets
-- and settings around them.
pub mod Base
pub mod Couriers
pub mod Smartfood
