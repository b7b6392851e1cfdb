-- ===== src/SqlQueue/Draining.antt =====
-- What becomes of queued queries, src/sqlqueue.c and src/rdb.c.
use denora.Prelude.{ℕ, ◌+◌, ◌≡◌, refl, ap, true, List, [], some, CString, arith}
use denora.SqlQueue.{Queue, query_low, drain, rdb_query}

queue-≡ :
    {qp qp' : List CString} {j j' e e' t t' : ℕ}
    → qp ≡ qp'
    → j ≡ j'
    → e ≡ e'
    → t ≡ t'
    → Path Queue
        (record { qp = qp; qp_job_count = j; qp_exec_count = e; qp_total = t })
        (record { qp = qp'; qp_job_count = j'; qp_exec_count = e'; qp_total = t' })
queue-≡ a b c d = λ i. record { qp = a i; qp_job_count = b i; qp_exec_count = c i; qp_total = d i }

module _ {S : Type 0} (direct : CString → ℕ → S → ℕ × S) where
  -- With threads, of two queries of low priority that `rdb_query` gets before the thread runs, only
  -- the second reaches the database, and what waited before them does not either; the counter of
  -- jobs keeps those that were lost.
  pub drain-rdb_query :
      (a b : CString) (q : Queue) (s : S)
      → let first = rdb_query direct true true query_low (some a) q s in
        let second = rdb_query direct true true query_low (some b) first.1 first.2 in
        drain direct 2 second.1 second.2
        ≡ some (
          record {
            qp = [];
            qp_job_count = q.qp_job_count + 1;
            qp_exec_count = q.qp_exec_count + 1;
            qp_total = q.qp_total + 2;
          },
          (direct b 1 s).1,
        )
  unfolding drain rdb_query
  drain-rdb_query a b q s =
      ap (λ x. some (x, (direct b 1 s).1)) (queue-≡ refl (omega arith) refl (omega arith))
