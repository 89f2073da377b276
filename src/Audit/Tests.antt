-- ===== src/Audit/Tests.antt =====
-- The audit logger at concrete values.
use quant_stuff.Prelude.{◌≡◌, refl, true, false, none, some, [], ◌∷◌}
use quant_stuff.Float.{Fixed, decimal, fixed_float}
use quant_stuff.Orders.Types.{ExecutionReport, err, database_error}
use quant_stuff.Orders.Tests.{full_fill}
use quant_stuff.Audit.{OrderAuditLogger}
use quant_stuff.Audit.Operations.{
  upsert_all, execute_many, start, log_report, insert_batches, flush, waited, stop,
}
use quant_stuff.Audit.Runs.{Logs, Calls, contents, IsDurable}
use quant_stuff.Audit.Trail.{stop_writes, Calls-contents}

abbrev logger : OrderAuditLogger Fixed
logger = record {
  db_path = "a.db";
  batch_size = 2;
  flush_interval_seconds = decimal 0 5_000_000;
  max_queue_size = 3;
  queue = [];
  conn = none;
  has_worker = false;
  is_running = false;
  stored = [];
}

logger-IsDurable : IsDurable logger
logger-IsDurable = record { file = refl; size = 1; chunk = refl; committed = refl }

abbrev second : ExecutionReport Fixed
second = record full_fill { report_id = "rep-2" }

abbrev last : ExecutionReport Fixed
last = record full_fill { report_id = "rep-3" }

abbrev running : OrderAuditLogger Fixed
running = record logger { conn = some []; has_worker = true; is_running = true }

abbrev busy : OrderAuditLogger Fixed
busy = record running { queue = full_fill ∷ second ∷ [] }

-- a task that logs once more while `stop` waits
abbrev straggler : OrderAuditLogger Fixed → OrderAuditLogger Fixed
straggler g = (log_report last g).1

straggler_logs : Logs (record busy { is_running = false }) (last ∷ []) (waited straggler busy)
unfolding log_report
straggler_logs = Logs.logged refl Logs.nothing

stop_writes_example :
    ((stop straggler none busy).1.stored ≡ upsert_all (last ∷ []) (contents busy))
    × ((stop straggler none busy).1.conn ≡ none)
stop_writes_example =
    stop_writes straggler busy (last ∷ [])
      (record { file = refl; size = 1; chunk = refl; committed = refl }) refl refl straggler_logs

abbrev at_end : OrderAuditLogger Fixed
at_end = (stop straggler none busy).1

day : Calls logger (full_fill ∷ second ∷ last ∷ []) at_end
unfolding start log_report
day = Calls.started (
    Calls.logged refl
      (Calls.logged refl (Calls.stopped straggler refl (Logs.logged refl Logs.nothing) Calls.done)))

Calls-contents_example :
    contents at_end ≡ upsert_all (full_fill ∷ second ∷ last ∷ []) (contents logger)
Calls-contents_example =
    Calls-contents logger at_end (full_fill ∷ second ∷ last ∷ []) logger-IsDurable day

-- If a write raises, the reports that were drained are gone from the queue and not in the file.
lost :
    let outcome = flush (λ _. some 0) busy in
    (outcome.0 ≡ err database_error) × (outcome.1.queue ≡ []) × (outcome.1.stored ≡ [])
unfolding flush insert_batches execute_many
lost = (refl, refl, refl)
