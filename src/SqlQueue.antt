-- ===== src/SqlQueue.antt =====
-- The queue of SQL queries with threads, src/sqlqueue.c, and its one user, `rdb_query` of
-- src/rdb.c. A `QueueEntry *` is the list of the messages from it on, the null pointer is the empty
-- list. What sends a query to the database is a parameter: it gets the query and the connection,
-- and returns an int and a new state of the database. A function runs as a whole: the mutex and the
-- signal, and so the interleavings of the two threads, are left out. The counters are ints below 2
-- ^ 31.
pub mod Draining
mod Examples
use denora.Prelude.{
  ℕ, zero, suc, ◌+◌, ◌-◌, Bool, true, false, List, [], ◌∷◌, Option, none, some, CString, ◌==◌,
  if◌then◌else◌,
}

-- The static variables.
pub record Queue : Type 0 where
  pub qp : List CString
  pub qp_job_count : ℕ
  pub qp_exec_count : ℕ
  pub qp_total : ℕ

abbrev pub query_high : ℕ
query_high = 1

abbrev pub query_low : ℕ
query_low = 2

-- The walk to the last member, and the link that it gets.
unfoldable pub link_last : List CString → CString → List CString
link_last [] msg = msg ∷ []
link_last (m ∷ qep) msg = m ∷ link_last qep msg

-- The result is the head of the list; the static `qp` is the caller's to set.
unfoldable pub add_queue_entry : List CString → CString → Queue → List CString × Queue
unfolding link_last
add_queue_entry qep msg q =
    (link_last qep msg, record q { qp_job_count = q.qp_job_count + 1; qp_total = q.qp_total + 1 })

-- `none` is the access through a null pointer.
unfoldable pub remove_queue_entry : List CString → Queue → Option (List CString × Queue)
remove_queue_entry [] q = none
remove_queue_entry (m ∷ link) q = some (link, record q { qp_job_count = q.qp_job_count - 1 })

abbrev pub set_qp : List CString × Queue → Queue
set_qp (qep, q) = record q { qp = qep }

unfoldable pub clear_queue_entry : List CString → Queue → Option Queue
unfolding remove_queue_entry
clear_queue_entry [] q = some q
clear_queue_entry (m ∷ link) q =
    clear_queue_entry link (record q { qp_job_count = q.qp_job_count - 1 })

module _ {S : Type 0} (direct : CString → ℕ → S → ℕ × S) where
  abbrev pub removed : S → Option (List CString × Queue) → Option (List CString × Queue × S)
  removed s none = none
  removed s (some (qep, q)) = some (qep, q, s)

  unfoldable pub execute_queue : List CString → Queue → S → Option (List CString × Queue × S)
  unfolding remove_queue_entry
  execute_queue [] q s = some ([], q, s)
  execute_queue (m ∷ link) q s =
      removed (direct m 1 s).1
        (remove_queue_entry (m ∷ link) (record q { qp_exec_count = q.qp_exec_count + 1 }))

  -- `while (qp) qp = ExecuteQueue (qp);` of `queue_thread_main`, on fuel.
  abbrev pub drain_on :
      (Queue → S → Option (Queue × S)) → Option (List CString × Queue × S) → Option (Queue × S)
  drain_on go none = none
  drain_on go (some (qep, q, s)) = go (record q { qp = qep }) s

  abbrev pub drain_test :
      (Queue → S → Option (Queue × S)) → List CString → Queue → S → Option (Queue × S)
  unfolding execute_queue
  drain_test go [] q s = some (q, s)
  drain_test go (m ∷ link) q s = drain_on go (execute_queue (m ∷ link) q s)

  unfoldable pub drain : ℕ → Queue → S → Option (Queue × S)
  unfolding execute_queue
  drain zero q s = none
  drain (suc n) q s = drain_test (drain n) q.qp q s

  -- A query is its text, already formatted, or none with an empty or a null format.
  abbrev pub queue_low : CString → Queue → Queue
  unfolding add_queue_entry
  queue_low buf q = set_qp (add_queue_entry [] buf q)

  abbrev pub sent : Queue → ℕ × S → ℕ × Queue × S
  sent q (res, s) = (res, q, s)

  unfoldable pub rdb_query : Bool → Bool → ℕ → Option CString → Queue → S → ℕ × Queue × S
  unfolding add_queue_entry
  rdb_query do_sql use_threading i none q s = (0, q, s)
  rdb_query do_sql use_threading i (some buf) q s =
      if do_sql
      then if use_threading
        then if i == query_high then sent q (direct buf 0 s) else (1, queue_low buf q, s)
        else sent q (direct buf 0 s)
      else (0, q, s)
