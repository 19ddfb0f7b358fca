-- ===== src/Worker/Mutex/Lock.antt =====
-- What `worker_mutex_lock` and `worker_mutex_unlock` come to.
use cs.Worker.State.{Node, Deque, blocked}
use cs.Worker.Deque.Chain.{Chain}
use cs.Worker.Mutex.{Mutex}

-- The node `n` with a NULL link, and its thread marked as blocked.
abbrev pub parked : Node → Node
parked n = let t = n.tcb in record n { tcb = record t { status = blocked }; next = 0 }
