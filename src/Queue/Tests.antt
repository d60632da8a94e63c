-- ===== src/Queue/Tests.antt =====
-- Queues of src/ltask/queue.c at concrete inputs.
use grt.Base.{◌≡◌, ◌↔◌, refl, List, [], ◌∷◌, true, arith, length}
use grt.Base.Run.{ok, ◌>>=◌}
use grt.Queue.{queue_push, queue_empty, queue_release}
use grt.Queue.{release_loop, copy_loop}
use grt.Queue.Refine.{Op, push, pop, run_ops, list_ops, run_ops-list_ops}
use grt.Queue.Sample.{wrapped, two, wrapped-Stores}
use grt.Queue.Fifo.{queue_empty_lem}

-- The third entry fills the ring, which doubles.
grown : (queue_push wrapped 7 >>= λ q. queue_release q true) ≡ ok (8 ∷ 9 ∷ 7 ∷ [])
unfolding queue_push queue_release copy_loop release_loop
grown = refl

queue_empty_lem_example : (queue_empty wrapped ≡ true) ↔ (length two ≡ 0)
queue_empty_lem_example = queue_empty_lem (8 ∷ 9 ∷ []) wrapped-Stores

abbrev script : List Op
script = push 7 ∷ pop ∷ pop ∷ push 4 ∷ pop ∷ pop ∷ pop ∷ []

run_ops-list_ops_example : run_ops script wrapped ≡ ok (8 ∷ 9 ∷ 7 ∷ 4 ∷ 0 ∷ [])
unfolding list_ops
run_ops-list_ops_example = run_ops-list_ops script wrapped (8 ∷ 9 ∷ []) wrapped-Stores (omega arith)
