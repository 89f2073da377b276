-- ===== src/Audit/Trail.antt =====
-- What OrderAuditLogger in src/quant/execution/audit.py keeps of the reports that it takes.
use quant_stuff.Prelude.{
  ◌≡◌, refl, ap, sym, ◌∙◌, true, false, none, List, [], inl, inr, Bool-cases, leb, length, is_some,
}
use quant_stuff.Orders.Types.{ExecutionReport}
use quant_stuff.Audit.{OrderAuditLogger}
use quant_stuff.Audit.Operations.{
  upsert_all, log_report, drained, is_idle, waited, close_after, stop,
}
use quant_stuff.Audit.Batches.{upsert_all-append}
use quant_stuff.Audit.Runs.{
  Logs, Calls, contents, IsDurable, IsWritten, flush-Keeps, start-Keeps, log-Keeps, Logs-Keeps,
  shut_drained,
}

module _ {F : Type 0} where
  Logs_conn :
      (g g' : OrderAuditLogger F) (rs : List (ExecutionReport F)) → Logs g rs g' → g'.conn ≡ g.conn
  unfolding log_report
  Logs_conn g g' [] Logs.nothing = refl
  Logs_conn g g' _ (Logs.logged {g1} {r} {rs} e after) =
      elim (Bool-cases (leb g.max_queue_size (length g.queue))) [
        | inl full ↦ cc
        | inr room ↦ Logs_conn g1 g' rs after ∙ ap (λ x. x.1.conn) (sym (rw room at e))
      ]

  -- what `stop` leaves, with the reports that were logged while it waited
  pub record IsStopped (during : List (ExecutionReport F)) (g g' : OrderAuditLogger F)
      : Type 0 where
    pub durable : IsDurable g'
    pub same : contents g' ≡ upsert_all during (contents g)
    pub stored : is_some g.conn ≡ true → g'.stored ≡ upsert_all during (contents g)
    pub closed : g'.conn ≡ none

  stop-IsStopped :
      (other : OrderAuditLogger F → OrderAuditLogger F) (g : OrderAuditLogger F)
      (during : List (ExecutionReport F))
      → IsDurable g
      → is_idle g ≡ false
      → Logs (record g { is_running = false }) during (waited other g)
      → IsStopped during g (stop other none g).1
  unfolding stop
  stop-IsStopped other g during h busy logs =
      let ending = record g { is_running = false } in
      let begun : IsDurable ending = record {
        file = h.file;
        size = h.size;
        chunk = h.chunk;
        committed = h.committed;
      } in
      let w = waited other g in
      let (hw, cw) = Logs-Keeps ending w during begun logs in
      let w0 = record w { has_worker = false } in
      let kept : IsDurable w0 = record {
        file = hw.file;
        size = hw.size;
        chunk = hw.chunk;
        committed = hw.committed;
      } in
      let written : IsWritten w0 (close_after (drained none w0)).1 = shut_drained w0 kept in
      rw busy (record {
        durable = written.durable;
        same = written.same ∙ cw;
        stored = λ o. written.stored (ap is_some (Logs_conn ending w during logs) ∙ o) ∙ cw;
        closed = written.closed;
      })

  -- If no write raises, the logger has a file and chunks that are not empty, and all that it wrote is
  -- committed, then `stop` on an open connection leaves in the file the rows that it had, with the reports
  -- of the queue and those logged while it waited upserted in their order, and closes the connection.
  pub stop_writes :
      (other : OrderAuditLogger F → OrderAuditLogger F) (g : OrderAuditLogger F)
      (during : List (ExecutionReport F))
      → IsDurable g
      → is_idle g ≡ false
      → is_some g.conn ≡ true
      → Logs (record g { is_running = false }) during (waited other g)
      → ((stop other none g).1.stored ≡ upsert_all during (contents g))
        × ((stop other none g).1.conn ≡ none)
  stop_writes other g during h busy connected logs =
      let stopped = stop-IsStopped other g during h busy logs in
      (stopped.stored connected, stopped.closed)

  -- If no write raises, the logger has a file and chunks that are not empty, and all that it wrote is
  -- committed, then whatever calls of `log_report`, `flush`, `start` and `stop` are made, the rows with the
  -- queue upserted are those before with the reports that were taken upserted in their order: none is
  -- lost, doubled or reordered by the batches, also over stops and starts.
  pub Calls-contents :
      (g g' : OrderAuditLogger F) (rs : List (ExecutionReport F))
      → IsDurable g
      → Calls g rs g'
      → contents g' ≡ upsert_all rs (contents g)
  Calls-contents g g' [] h Calls.done = refl
  Calls-contents g g' _ h (Calls.logged {g1} {r} {rs} e after) =
      let (h1, e1) = log-Keeps r g g1 h e in
      Calls-contents g1 g' rs h1 after ∙ ap (upsert_all rs) e1
  Calls-contents g g' rs h (Calls.flushed after) =
      let k = flush-Keeps g h in
      Calls-contents _ g' rs k.durable after ∙ ap (upsert_all rs) k.contents
  Calls-contents g g' rs h (Calls.started after) =
      let k = start-Keeps g h in
      Calls-contents _ g' rs k.durable after ∙ ap (upsert_all rs) k.contents
  Calls-contents g g' _ h (Calls.stopped {during} {rs} other busy logs after) =
      let k = stop-IsStopped other g during h busy logs in
      Calls-contents _ g' rs k.durable after
      ∙ ap (upsert_all rs) k.same
      ∙ sym (upsert_all-append during rs (contents g))
