-- ===== src/Lib.antt =====
-- Rubigram: an asynchronous client library for Rubika (rubigram) and a membership worker built on
-- it (membership_worker). This development models the worker's order processing, its logins and
-- signed views, and of the library the character ciphers, the pool of URLs, the retry ladder,
-- uploads and downloads, the mapping of errors, the filters and the dispatcher of updates.
--
-- The worker takes orders of a panel: join, leave or view a target with a number of accounts. An
-- order is a job; each account that it was given is an item. A task claims an item, runs the action
-- against Rubika, records what came of it, and finalizes the job when no item is left: missing slots
-- are filled with other accounts, or the job is settled and the panel is told. Periodic tasks pick up
-- what was lost, and undo joins after their retention period.
--
-- The files, and the code that they model:
--   Base and its children: lists, tables of rows, texts, a sort, integers and results.
--   Worker/Model, Worker/Db: the tables of membership_worker/worker/models.py as lists of records in
--     the order of their ids, the WORKER_* settings of membership_worker/project/settings.py, and the
--     queue of the tasks that were handed to Celery (membership_worker/worker/tasks.py).
--   Worker/Selection: select_accounts, view_candidates and count_free_accounts of
--     membership_worker/worker/jobs.py.
--   Worker/Targets: membership_worker/worker/targets.py, with Python's urlparse.
--   Worker/Services: view_post_count of membership_worker/worker/rubika.py.
--   Worker/Nonces: remember_nonce of jobs.py.
--   Worker/Jobs: jobs.py. Checks is the validation of a payload, Create is create_membership_job,
--     Bookkeeping the counters, memberships, auto-leave rows and the cancellation, Replacements is
--     enqueue_replacement_items_if_needed, Settle is finalize_job_if_done.
--   Worker/Rubika: the outcomes, the failures and classify_error of rubika.py.
--   Worker/Items: membership_worker/worker/items.py. Claiming is claim_item_and_reserve_throttle, Run
--     is _run_action, Failure is _handle_failure, Process is process_membership_job_item, Effects the
--     single updates.
--   Worker/Recovery: membership_worker/worker/recovery.py, its lost items and stuck jobs (Stale) and
--     the retention leave (AutoLeaves).
--   Worker/Health: membership_worker/worker/health.py. Health has _record and availability_snapshot;
--     Scans the probe, _targets_for and the two entry points; Queue, Fairness and Starvation are about
--     runs of the periodic scan (tasks.py), Order about the check times they leave.
--   Worker/Accounts: membership_worker/worker/accounts.py. Rows is save_account, delete_worker_account
--     and account_stats; Login is the login by phone, with _PENDING and the clients that run; Clients
--     and Outcomes are about logins.
--   Worker/Views: _signed_payload and the views of membership_worker/worker/views.py that are about
--     orders, their status, statistics and deletions.
--   Worker/Callbacks: build_callback_payload and job_status_payload of jobs.py.
--   Worker/Invariant: what every operation keeps; Worker/Transactions: the single transactions and
--     writes that the tasks and requests consist of, its children of which of them each task
--     consists; Worker/Steps: whole tasks and single transactions as steps in any order;
--     Worker/Guarantees, Placement, Contention, Claimed, Pacing, Counted, Ended, Finalized, Overtaken,
--     Leaves, Replay: what they promise. Worker/Selection/Allowed says what an account that is handed
--     out must satisfy.
--   Internal/Signing: sign_body and verify_body of rubigram_internal/signing.py.
--   Utils/Phone: rubigram/utils/phone.py.
--   Crypto/Cipher: create_secret_passphrase, caesar_encode and caesar_decode of
--     rubigram/crypto/cipher.py; Crypto/Auth: change_auth_type of rubigram/crypto/auth.py.
--   Network/Pool: UrlPool of rubigram/network/pool.py; Network/Retry: RetryPolicy and run_with_retries
--     of rubigram/network/retry.py; Network/Http: _post_once and _send of _BaseHttpTransport in
--     rubigram/network/http.py.
--   Network/Transfers: rubigram/network/upload.py and download.py.
--   Errors/Mapping: rubigram/errors/mapping.py.
--   Filters: rubigram/filters/filters.py, without its regular expressions; Filters/Commands is about
--     its command filter.
--   Handlers/Dispatcher: the registry, handlers and dispatch of rubigram/handlers/dispatcher.py, with
--     Handler of rubigram/handlers/handler.py; Handlers/Fanout: its dispatch_updates,
--     dispatch_bot_update and dispatch_inline_message.
--
-- How the code is modelled. An operation is a function from tables to tables, with the answer
-- where it has one. A transaction is one step; between the transactions of a task those of others
-- may run, and what a task has read before may be out of date (Worker/Transactions). The rows that
-- others hold locked are a parameter of what uses skip_locked; the look at the idempotency key and
-- the insertion under its unique index are one step, and so are the look at an ACTIVE job and its
-- completion. An operation reads the clock once. A time is in microseconds, what the bonus of a
-- count comes to in floating point is a parameter, a span that may reach back before the epoch is
-- added on the other side of the comparison. A payload is taken after Python's int and str; error texts keep their start.
-- What Rubika answers to a join, a leave or a view is a parameter. A row that a get does not find
-- ends the operation, with the tables as they are; the source raises there. The loops of the
-- worker are structural recursion over a list; run_with_retries counts down the turns of its
-- range, and falls through only where the source asserts that it does not. What an attempt does
-- is a parameter of the ladder; of a request, client.post, refresh_urls and the clock are. What a
-- handler's filter and callback come to is a function of the update; a callback does not change
-- the registry. A download is a loop for a number of turns, and one turn more than the file has
-- bytes is enough; the size that it is told is a natural number, and a path's file has the size
-- that its stat told. str.upper is a parameter, and in the command filter str.lower is; elsewhere
-- it is modelled for the characters whose lower case is an ASCII letter, which decides every
-- comparison made with it. The calls of a login run one after another, and a new login has a
-- session name that no pending one has. A call may be cancelled where it waits for an answer of
-- Rubika, as async_runtime.run does after its timeout, but not while a client is stopped or its
-- session exported. What Rubika and the client's storage answer is a
-- parameter of a call. A view reads a body by a parameter for json.loads, and an exception that no
-- view catches is an answer of its own. A client is a number; a start that fails closes it. What
-- the client of a probe comes to is a parameter of a scan; where a database sorts NULL is a
-- Boolean. A deletion of accounts takes what hangs off them.
--
-- Not modelled: the views of logins, of the recorded health and of the probe, which answer what the
-- modelled operations do; availability_map, which only reads rows; the sending of callbacks, the
-- session name, the device hash and the measured address of a login, which are random or I/O; the
-- retries of Celery; and of the library its client and types, which build requests and read fields
-- of answers, the socket, the discovery of data centres and the bot API, storage, and the filters
-- of regular expressions.
pub mod Base
pub mod Crypto
pub mod Errors
pub mod Filters
pub mod Handlers
pub mod Internal
pub mod Network
pub mod Utils
pub mod Worker
