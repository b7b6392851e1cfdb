-- ===== src/SqlQueue/Examples.antt =====
-- Runs of the queue on concrete messages.
use denora.Prelude.{ℕ, ◌≡◌, List, [], ◌∷◌, ◌++◌, some, true, CString, codes}
use denora.SqlQueue.{Queue, query_low, drain, rdb_query}
use denora.SqlQueue.Draining.{drain-rdb_query}

-- A database that notes the messages.
abbrev noted : CString → ℕ → List CString → ℕ × List CString
noted m con s = (0, s ++ m ∷ [])

abbrev one_waiting : Queue
one_waiting = record { qp = codes "a" ∷ []; qp_job_count = 3; qp_exec_count = 5; qp_total = 8 }

drain-rdb_query_example :
    let first = rdb_query noted true true query_low (some (codes "b")) one_waiting [] in
    let second = rdb_query noted true true query_low (some (codes "c")) first.1 first.2 in
    drain noted 2 second.1 second.2
    ≡ some (record { qp = []; qp_job_count = 4; qp_exec_count = 6; qp_total = 10 }, codes "c" ∷ [])
drain-rdb_query_example = drain-rdb_query noted (codes "b") (codes "c") one_waiting []
