-- ===== src/Lib.antt =====
-- The LLM service manager, a controller of language models on shared GPUs: the policies that decide
-- from one observation of the host, the store of its durable intents, the leases by which a model holds its
-- place on a card, the reload of the proxy's configuration, the reconciler of model directories, and the
-- reports of usage.
--
-- Parts of the program, and the files that model them. Paths are from the repository's root.
--   llmsvc/state.py: the snapshot that the collectors publish, and the decisions (State, State/Transition)
--   llmsvc/policy/common.py: settings (Policy/Settings) and `Projection`, the speculative state of one
--     decision (Policy/Projection and its children: Defs the fields, Checks the constructor, `block`
--     and `protection`, Ranked `score` and `candidates`, Memory `stop`, `sleep` and their tests)
--   llmsvc/policy/ranking.py: `keep_value` (Policy/Ranking)
--   llmsvc/policy/intents.py: the releases (Policy/Intents, Policy/Intents/Free) and `plan_reserve`
--     (Policy/Reserve)
--   llmsvc/policy/pressure.py: Policy/Pressure
--   llmsvc/policy/placement.py: Policy/Placement (Accounting the budgets, Cards the survey of the cards,
--     Evictions the prices, Plan the choice, Plan/Evict the eviction of the chosen set; Safety
--     what holds of a decision, with Residents, Stops and Acts of an eviction)
--   llmsvc/policy/feasibility.py: Policy/Feasibility
--   llmsvc/policy/wake_failure.py: Policy/WakeFailure (Evidence, Runs and Shown what a stop rests on,
--     with the windows that llmsvc/wake_failure.py keeps; Reports that none is passed over)
--   llmsvc/policy/recovery.py: Policy/Recovery (Trigger the reason for a move, Request what is placed)
--   llmsvc/fleet/events.py: the bounded log of notifications (Fleet/Events)
--   llmsvc/store.py: the tables of the intent store (Store/Rows) and its operations (Store/Leases,
--     Store/Maintenance, Store/Faults, Store/Recoveries, Store/Intents); Store/Life is its step
--     relation, and Store/Table, Store/Single, Store/Keeps, Store/Safety, Store/Cleanup, Store/Claims
--     and Store/Recovering carry its invariant to Store/Reachable
--   llmsvc/bootstrap_state.py: `pending`, `authorized` and `insert_lease` (Store/Rows, Store/Leases)
--   llmsvc/leases.py: the probe of a unit (Leases/Probe), what counts as evidence (Leases/Observed),
--     `finish` (Leases/Finish), `reconcile` (Leases/Reconcile, Leases/Evidence, Leases/Safety),
--     `_decision` (Leases/Admission, Leases/Admitted), `place` (Leases/Place; Leases/Passes,
--     Leases/Granted, Leases/Kept and Leases/Declines say what a grant, a stop and a refusal for want
--     of a card rest on), `_observe_victim` (Leases/Victim), the window in which `place` waits for
--     evidence (Leases/Window), `accounting_snapshot` (Leases/Accounts)
--   llmsvc/reconcile.py: the back-off (Reconcile/Backoff) and `run_once` with the methods that it calls
--     (Reconcile/Run); induction over the ways in which a run ends (Reconcile/Endings), what a run
--     submits (Reconcile/Polite), what it forgets (Reconcile/Forgets)
--   llmsvc/reload.py: `QuietPeriod` (Reload/Quiet, Reload/Calm), `reload_blockers` (Reload/Blockers, Reload/Admitted) and
--     `process_once` of the queue with `_retire_marker` (Reload/World what its calls answer,
--     Reload/Transaction; Reload/Steps, Reload/Commit, Reload/Fenced and Reload/Installed follow
--     its stages); `enqueue` and the whole queue (Reload/Queue, Reload/Promise); `reconcile` and `confirm_retired_receipt`, by which an operator
--     settles a receipt (Reload/Receipt the proofs, Reload/Settle the operations, Reload/Lifted and
--     Reload/Absent what lifts a fence)
--   llmsvc/reload_witness.py: the identity of an instance (Reload/Receipt)
--   llmsvc/activity.py: the reasons of failures (Activity/Errors), the attribution of a request
--     (Activity/Source) and the usage report (Activity/Report; Activity/Sums, Activity/Tallied and
--     Activity/Balanced show that its counters add up),
--     `_summary_rows` (Activity/Summary) with its loop over the names of models (Activity/Seek), and
--     `read` (Activity/Read; Activity/Cover, Activity/Grouped, Activity/Newest and Activity/Exact say
--     what it answers in terms of all rows)
--   llmsvc/fleet/config.py: `canonical_ip` (Activity/Source)
--
-- SQLite's order of texts is the lexicographic one (Prelude/TextOrder).
-- The lease controller reads the store and the latest snapshot, asks the placement policy through
-- `_decision`, and writes leases back to the store only by `create_lease` and `transition_lease`.
-- The intents, the pressure policy, the placement and the recovery all build a `Projection` and read
-- its actions and blockers at the end; `plan_reserve` and the recovery also ask `plan_placement` about
-- a snapshot in which a model is stopped.
--
-- How the code is translated. A method of `Projection` that changes `self` is a function from the old
-- state to the new one, and to its result where it returns one. A ValueError is `err` of `Result`
-- (Prelude/Result). A loop over a list is structural recursion on it, so no fuel is needed; the one
-- `while` loop, over the names of the activity's models, has one round more than there are rows of fuel,
-- which is enough, as Activity/Seek shows; `break` and
-- `return` inside a loop are the branch that does not recurse. `sorted` is an insertion sort, which is stable as Python's
-- is. A dictionary is an association list whose keys keep the order of their first insertion.
-- `a > b` is written `b < a`. The float type is a parameter: `Float N` names its operations, and a
-- theorem that needs laws of its order takes `OrderLaws`; on `whole`, the instance over ℕ, every
-- policy runs (Policy/Samples and the modules named Witnesses). Fields have the types of their annotations, so that
-- the tests of `isinstance` and `type` have no branch here; GPU numbers are naturals, so that the tests
-- for a negative one have none either. A field that a guard has found to be a number is read by
-- `amount`, whose default the guards keep from use. `None` for a dictionary of exclusions is the empty
-- one. The status of a lease is a text, as the code handles a status that it does not know.
--
-- The store is a list of rows for each table. An INSERT that would break a primary key or a unique index
-- is an error, as SQLite makes it. Every method holds the action lock for its whole step, so that a row
-- which is read again inside its transaction is the same; a table that a lazy migration has not made yet
-- is empty. The checkpoints of the catalog and the bootstrap are fields that other parts change.
-- `shlex.split`, the answers of systemd and the worker of sleeping recoveries are arguments.
--
-- The log of the fleet is a state machine: each method holds the lock for its whole step, so a run is a
-- sequence of steps (Fleet/Events/History). The clock and the size of an event's JSON text are arguments;
-- the wait of `events_since` is over when it reads.
--
-- Not modelled: `to_dict` and the event records of llmsvc/state.py; the checkpoints and migrations of
-- the store; the waits of `place`, and whether a model shows an effect, which is an answer; a bootstrap
-- in progress; the executors, which revalidate and carry out the decisions; the inspection of a recovery
-- and the text of a marker; the collectors, the registry and the catalog, the servers, and the rest of
-- the fleet.
--
-- A pass of the loop of `place` is a record of what its calls answer (Leases/Place), and the loop recurses on
-- the list of its passes; behind the last one the deadline is over.
-- A reconciliation of leases meets a sample, a clock and a probe of its own for each row, and no other
-- thread changes the store between its rows.
-- A run of the reconciler reads the clock once, and asks for a pending job twice. What the registry, the
-- scheduler and the catalog answer are fields of `World` (Reconcile/Run). A run of the reload queue is a
-- sequence of steps that go on, return or raise; what each call answers, in the order of the calls, is a field
-- of `World` (Reload/World), and the log and the measured duration are left out. When the marker's
-- retirement fails before its removal, the marker is taken to be still there.
-- The queries of the activity database and the export of containers are arguments of the usage report.
mod Prelude
pub mod State
pub mod Store
pub mod Leases
pub mod Reload
pub mod Reconcile
pub mod Policy
pub mod Activity
pub mod Fleet
