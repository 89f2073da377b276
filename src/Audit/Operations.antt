-- ===== src/Audit/Operations.antt =====
-- The methods of OrderAuditLogger in src/quant/execution/audit.py.
use quant_stuff.Prelude.{
  ℕ, zero, suc, leb, Bool, true, false, not, ◌&&◌, Option, none, some, String, str_eq, strip, List,
  [], ◌∷◌, ◌++◌, keep, length, if◌then◌else◌, is_some,
}
use quant_stuff.Orders.Types.{
  ExecutionReport, Result, ok, err, ◌>>=◌, ◌>>◌ as ◌then◌, gateway_disconnected, queue_full,
  database_error,
}
use quant_stuff.Orders.Validate.{Value}
use quant_stuff.Idempotency.{positive_int, text_argument}
use quant_stuff.Action.{Action}
use quant_stuff.Audit.{Row, OrderAuditLogger, to_row}

-- the first items, and the rest
abbrev pub take : {A : Type 0} → ℕ → List A → List A
take zero xs = []
take (suc n) [] = []
take (suc n) (x ∷ xs) = x ∷ take n xs

abbrev pub drop : {A : Type 0} → ℕ → List A → List A
drop zero xs = xs
drop (suc n) [] = []
drop (suc n) (x ∷ xs) = drop n xs

abbrev pub passes : Option String → String → Bool
passes none s = true
passes (some wanted) s = str_eq s wanted

module _ {F : Type 0} where
  -- INSERT OR REPLACE, by the primary key
  abbrev pub upsert : Row F → List (Row F) → List (Row F)
  upsert row rows = keep (λ x. not (str_eq x.report_id row.report_id)) rows ++ (row ∷ [])

  abbrev pub upsert_all : List (ExecutionReport F) → List (Row F) → List (Row F)
  upsert_all [] rows = rows
  upsert_all (r ∷ rs) rows = upsert_all rs (upsert (to_row r) rows)

  -- `executemany`: a fault is the number of rows that are in when it raises
  unfoldable pub execute_many :
      Option ℕ → List (ExecutionReport F) → List (Row F) → Result (Unit {0}) × List (Row F)
  execute_many none rs rows = (ok tt, upsert_all rs rows)
  execute_many (some k) rs rows = (err database_error, upsert_all (take k rs) rows)

  abbrev pub is_alive : OrderAuditLogger F → Bool
  is_alive g = g.is_running && is_some g.conn

  abbrev pub pending_count : OrderAuditLogger F → ℕ
  pending_count g = length g.queue

  -- a database in memory is empty at first and gone when it is closed
  abbrev pub opened_rows : OrderAuditLogger F → List (Row F)
  opened_rows g = if str_eq g.db_path ":memory:" then [] else g.stored

  unfoldable pub start : Action (OrderAuditLogger F) (Unit {0})
  start g =
      if is_alive g
      then (ok tt, g)
      else (ok tt, record g { conn = some (opened_rows g); is_running = true; has_worker = true })

  unfoldable pub log_report : ExecutionReport F → Action (OrderAuditLogger F) (Unit {0})
  log_report r g =
      if leb g.max_queue_size (length g.queue)
      then (err queue_full, g)
      else (ok tt, record g { queue = g.queue ++ (r ∷ []) })

  -- the chunks of a batch; there are no more than reports, since a chunk is not empty
  unfoldable pub insert_batches :
      (ℕ → Option ℕ)
      → ℕ
      → ℕ
      → ℕ
      → List (ExecutionReport F)
      → List (Row F)
      → Result (Unit {0}) × List (Row F)
  insert_batches fault zero n size rs rows = (ok tt, rows)
  insert_batches fault (suc fuel) n size [] rows = (ok tt, rows)
  insert_batches fault (suc fuel) n size (r ∷ rs) rows =
      let (result, rows') = execute_many (fault n) (take size (r ∷ rs)) rows in
      let further = insert_batches fault fuel (suc n) size (drop size (r ∷ rs)) rows' in
      elim result [ err e ↦ (err e, rows') | ok _ ↦ further ]

  -- the rows that a call has written, and their commit if it does not raise
  abbrev pub commit :
      OrderAuditLogger F → Result (Unit {0}) × List (Row F) → Result (Unit {0}) × OrderAuditLogger F
  commit g (ok _, rows) = (ok tt, record g { conn = some rows; stored = rows })
  commit g (err e, rows) = (err e, record g { conn = some rows })

  -- the queue is drained before the rows are written
  unfoldable pub flush : (ℕ → Option ℕ) → Action (OrderAuditLogger F) (Unit {0})
  flush fault g = elim g.conn [
    | none ↦ (ok tt, g)
    | some rows ↦ elim g.queue [
      | [] ↦ (ok tt, g)
      | r ∷ rs ↦
          commit (record g { queue = [] })
            (insert_batches fault (length (r ∷ rs)) 0 g.batch_size (r ∷ rs) rows)
    ]
  ]

  -- a round of `_flush_loop`, which suppresses what `flush` raises
  unfoldable pub flush_round : (ℕ → Option ℕ) → OrderAuditLogger F → OrderAuditLogger F
  flush_round fault g = if g.is_running then (flush fault g).1 else g

  -- the commit and the close of the connection
  abbrev pub shut : OrderAuditLogger F → OrderAuditLogger F
  shut g = elim g.conn [ none ↦ g | some rows ↦ record g { conn = none; stored = rows } ]

  abbrev pub drained : Option ℕ → OrderAuditLogger F → Result (Unit {0}) × OrderAuditLogger F
  drained fault g = elim g.conn [
    | none ↦ (ok tt, g)
    | some rows ↦ elim g.queue [
      | [] ↦ (ok tt, g)
      | r ∷ rs ↦ commit (record g { queue = [] }) (execute_many fault (r ∷ rs) rows)
    ]
  ]

  abbrev pub is_idle : OrderAuditLogger F → Bool
  is_idle g = not g.is_running && not (is_some g.conn)

  -- `other` is what other tasks do while the cancelled worker ends
  abbrev pub waited :
      (OrderAuditLogger F → OrderAuditLogger F) → OrderAuditLogger F → OrderAuditLogger F
  waited other g =
      let ending = record g { is_running = false } in if g.has_worker then other ending else ending

  abbrev pub close_after :
      Result (Unit {0}) × OrderAuditLogger F → Result (Unit {0}) × OrderAuditLogger F
  close_after (err e, g) = (err e, g)
  close_after (ok _, g) = (ok tt, shut g)

  unfoldable pub stop :
      (OrderAuditLogger F → OrderAuditLogger F) → Option ℕ → Action (OrderAuditLogger F) (Unit {0})
  stop other fault g =
      if is_idle g
      then (ok tt, g)
      else close_after (drained fault (record (waited other g) { has_worker = false }))

  -- `is None` or a text that is not all space, without the space around it
  abbrev pub filter_argument : Value F → Result (Option String)
  filter_argument Value.null = ok none
  filter_argument v = do s ← text_argument v; ok (some (strip s))

  abbrev pub selects : Option String → Option String → Row F → Bool
  selects id symbol row = passes id row.cl_ord_id && passes symbol row.symbol

  -- `order` is ORDER BY timestamp_ns ASC, which leaves the order of equal times open
  unfoldable pub query_reports :
      (List (Row F) → List (Row F))
      → Value F
      → Value F
      → Value F
      → OrderAuditLogger F
      → Result (List (Row F))
  query_reports order cl_ord_id symbol limit g = elim g.conn [
    | none ↦ err gateway_disconnected
    | some rows ↦ do
      n ← positive_int limit
      id ← filter_argument cl_ord_id
      ticker ← filter_argument symbol
      ok (take n (order (keep (selects id ticker) rows)))
  ]
