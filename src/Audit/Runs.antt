-- ===== src/Audit/Runs.antt =====
-- The calls of OrderAuditLogger in src/quant/execution/audit.py one after the other.
use quant_stuff.Prelude.{
  ℕ, suc, leb, ◌⊎◌, ◌≡◌, refl, ap, sym, ◌∙◌, false≢true, true, false, Option, none, some, List, [],
  ◌∷◌, ◌++◌, length, arith, inl, inr, Bool-cases, Option-cases, List-cases, str_eq, is_some,
}
use mathlib.Core.Path.{subst}
use quant_stuff.Orders.Types.{ExecutionReport, ok}
use quant_stuff.Audit.{Row, OrderAuditLogger}
use quant_stuff.Audit.Operations.{
  upsert_all, execute_many, insert_batches, is_alive, start, log_report, commit, flush, shut,
  drained, is_idle, waited, close_after, stop,
}
use quant_stuff.Audit.Batches.{upsert_all-append, insert_batches_lem}

-- no call of `executemany` raises
abbrev pub no_fault : ℕ → Option ℕ
no_fault n = none

module _ {F : Type 0} where
  -- the reports that are taken into the queue, in order
  pub data Logs : OrderAuditLogger F → List (ExecutionReport F) → OrderAuditLogger F → Type 0 where
    nothing : {g : OrderAuditLogger F} → Logs g [] g
    logged :
        {g g1 g' : OrderAuditLogger F} {r : ExecutionReport F} {rs : List (ExecutionReport F)}
        → log_report r g ≡ (ok tt, g1)
        → Logs g1 rs g'
        → Logs g (r ∷ rs) g'

  -- Calls that return, with the reports that they take. While `stop` waits, other tasks can only log, since
  -- it holds the lock.
  pub data Calls : OrderAuditLogger F → List (ExecutionReport F) → OrderAuditLogger F → Type 0 where
    done : {g : OrderAuditLogger F} → Calls g [] g
    logged :
        {g g1 g' : OrderAuditLogger F} {r : ExecutionReport F} {rs : List (ExecutionReport F)}
        → log_report r g ≡ (ok tt, g1)
        → Calls g1 rs g'
        → Calls g (r ∷ rs) g'
    flushed :
        {g g' : OrderAuditLogger F} {rs : List (ExecutionReport F)}
        → Calls (flush no_fault g).1 rs g'
        → Calls g rs g'
    started :
        {g g' : OrderAuditLogger F} {rs : List (ExecutionReport F)}
        → Calls (start g).1 rs g'
        → Calls g rs g'
    stopped :
        {g g' : OrderAuditLogger F} {during rs : List (ExecutionReport F)}
        (other : OrderAuditLogger F → OrderAuditLogger F)
        → is_idle g ≡ false
        → Logs (record g { is_running = false }) during (waited other g)
        → Calls (stop other none g).1 rs g'
        → Calls g (during ++ rs) g'

  -- the rows that the connection or else the file has
  abbrev pub rows_of : OrderAuditLogger F → List (Row F)
  rows_of g = elim g.conn [ none ↦ g.stored | some rows ↦ rows ]

  -- the rows when the queue will have been written
  abbrev pub contents : OrderAuditLogger F → List (Row F)
  contents g = upsert_all g.queue (rows_of g)

  -- a file, chunks that are not empty, and nothing that is not committed
  pub record IsDurable (g : OrderAuditLogger F) : Type 0 where
    pub file : str_eq g.db_path ":memory:" ≡ false
    pub size : ℕ
    pub chunk : g.batch_size ≡ suc size
    pub committed : rows_of g ≡ g.stored

  -- what a call that writes but takes no report keeps
  pub record Keeps (g g' : OrderAuditLogger F) : Type 0 where
    pub durable : IsDurable g'
    pub contents : contents g' ≡ contents g

  flush_eq :
      (g : OrderAuditLogger F) (size : ℕ) (rows : List (Row F)) (r : ExecutionReport F)
      (rs : List (ExecutionReport F))
      → g.batch_size ≡ suc size
      → g.conn ≡ some rows
      → g.queue ≡ r ∷ rs
      → flush no_fault g ≡ commit (record g { queue = [] }) (ok tt, upsert_all (r ∷ rs) rows)
  unfolding flush
  flush_eq g size rows r rs b c q =
      let written : insert_batches no_fault (length (r ∷ rs)) 0 g.batch_size (r ∷ rs) rows
          ≡ (ok tt, upsert_all (r ∷ rs) rows) =
        rw b (insert_batches_lem (length (r ∷ rs)) 0 size (r ∷ rs) rows (omega arith)) in
      let drained_first : flush no_fault g
          ≡ commit (record g { queue = [] })
              (insert_batches no_fault (length (r ∷ rs)) 0 g.batch_size (r ∷ rs) rows) =
        rw (c, q) refl in
      drained_first ∙ ap (commit (record g { queue = [] })) written

  flush_idle :
      (g : OrderAuditLogger F) → (g.conn ≡ none) ⊎ (g.queue ≡ []) → flush no_fault g ≡ (ok tt, g)
  unfolding flush
  flush_idle g (inl c) = ground arith
  flush_idle g (inr q) = ground arith

  stays : (g : OrderAuditLogger F) → IsDurable g → Keeps g g
  stays g h = record { durable = h; contents = refl }

  pub flush-Keeps : (g : OrderAuditLogger F) → IsDurable g → Keeps g (flush no_fault g).1
  unfolding flush
  flush-Keeps g h = elim (Option-cases g.conn) [
    | inl c ↦ subst (Keeps g) (sym (ap (λ x. x.1) (flush_idle g (inl c)))) (stays g h)
    | inr (rows, c) ↦ elim (List-cases g.queue) [
      | inl q ↦ subst (Keeps g) (sym (ap (λ x. x.1) (flush_idle g (inr q)))) (stays g h)
      | inr (r, rs, q) ↦
          subst (Keeps g) (sym (ap (λ x. x.1) (flush_eq g h.size rows r rs h.chunk c q))) (record {
            durable = record { file = h.file; size = h.size; chunk = h.chunk; committed = refl };
            contents = rw (c, q) refl;
          })
    ]
  ]

  pub start-Keeps : (g : OrderAuditLogger F) → IsDurable g → Keeps g (start g).1
  unfolding start
  start-Keeps g h = elim (Bool-cases (is_alive g)) [
    | inl e ↦ rw e (record { durable = h; contents = refl })
    | inr e ↦
        rw (e, h.file)
          (record {
            durable = record { file = h.file; size = h.size; chunk = h.chunk; committed = refl };
            contents = ap (upsert_all g.queue) (sym h.committed);
          })
  ]

  pub log-Keeps :
      (r : ExecutionReport F) (g g' : OrderAuditLogger F)
      → IsDurable g
      → log_report r g ≡ (ok tt, g')
      → IsDurable g' × (contents g' ≡ upsert_all (r ∷ []) (contents g))
  unfolding log_report
  log-Keeps r g g' h e = elim (Bool-cases (leb g.max_queue_size (length g.queue))) [
    | inl full ↦ cc
    | inr room ↦
        let same : record g { queue = g.queue ++ (r ∷ []) } ≡ g' = ap (λ x. x.1) (rw room at e) in
        rw (← same) (
          record { file = h.file; size = h.size; chunk = h.chunk; committed = h.committed },
          upsert_all-append g.queue (r ∷ []) (rows_of g),
        )
  ]

  pub Logs-Keeps :
      (g g' : OrderAuditLogger F) (rs : List (ExecutionReport F))
      → IsDurable g
      → Logs g rs g'
      → IsDurable g' × (contents g' ≡ upsert_all rs (contents g))
  Logs-Keeps g g' [] h Logs.nothing = (h, refl)
  Logs-Keeps g g' _ h (Logs.logged {g1} {r} {rs} e after) =
      let (h1, e1) = log-Keeps r g g1 h e in
      let (h', e') = Logs-Keeps g1 g' rs h1 after in (h', e' ∙ ap (upsert_all rs) e1)

  -- what a logger is when it is closed
  pub record IsWritten (g g' : OrderAuditLogger F) : Type 0 where
    pub durable : IsDurable g'
    pub same : contents g' ≡ contents g
    pub stored : is_some g.conn ≡ true → g'.stored ≡ contents g
    pub closed : g'.conn ≡ none

  drained_idle :
      (g : OrderAuditLogger F) → (g.conn ≡ none) ⊎ (g.queue ≡ []) → drained none g ≡ (ok tt, g)
  drained_idle g (inl c) = ground arith
  drained_idle g (inr q) = ground arith

  drained_full :
      (g : OrderAuditLogger F) (rows : List (Row F)) (r : ExecutionReport F)
      (rs : List (ExecutionReport F))
      → g.conn ≡ some rows
      → g.queue ≡ r ∷ rs
      → drained none g ≡ (
        ok tt,
        record g {
          queue = [];
          conn = some (upsert_all (r ∷ rs) rows);
          stored = upsert_all (r ∷ rs) rows;
        },
      )
  unfolding execute_many
  drained_full g rows r rs c q = rw (c, q) refl

  shut-none : (g : OrderAuditLogger F) → g.conn ≡ none → shut g ≡ g
  shut-none g c = ground arith

  shut-some :
      (g : OrderAuditLogger F) (rows : List (Row F))
      → g.conn ≡ some rows
      → shut g ≡ record g { conn = none; stored = rows }
  shut-some g rows c = rw c refl

  pub shut_drained :
      (g : OrderAuditLogger F) → IsDurable g → IsWritten g (close_after (drained none g)).1
  shut_drained g h = elim (Option-cases g.conn) [
    | inl c ↦
        let closed : close_after (drained none g) ≡ (ok tt, g) =
          ap close_after (drained_idle g (inl c)) ∙ ap (λ x. (ok tt, x)) (shut-none g c) in
        subst (λ x. IsWritten g x.1) (sym closed)
          (record {
            durable = h;
            same = refl;
            stored = λ o. absurd (false≢true (rw c at o));
            closed = c;
          })
    | inr (rows, c) ↦ elim (List-cases g.queue) [
      | inl q ↦
          let closed : close_after (drained none g)
              ≡ (ok tt, record g { conn = none; stored = rows }) =
            ap close_after (drained_idle g (inr q)) ∙ ap (λ x. (ok tt, x)) (shut-some g rows c) in
          subst (λ x. IsWritten g x.1) (sym closed)
            (record {
              durable = record { file = h.file; size = h.size; chunk = h.chunk; committed = refl };
              same = rw (c, q) refl;
              stored = λ o. rw (c, q) refl;
              closed = refl;
            })
      | inr (r, rs, q) ↦
          subst (λ x. IsWritten g (close_after x).1) (sym (drained_full g rows r rs c q))
            (record {
              durable = record { file = h.file; size = h.size; chunk = h.chunk; committed = refl };
              same = rw (c, q) refl;
              stored = λ o. rw (c, q) refl;
              closed = refl;
            })
    ]
  ]
