-- ===== src/Queue/Refine.antt =====
-- Any sequence of calls of src/ltask/queue.c against the same calls on a list.
use grt.Base.{◌≡◌, ◌≢◌, refl, List, [], ◌∷◌, ◌++◌}
use grt.Base.Run.{Run, ok, ◌>>=◌}
use grt.Queue.{Queue, Pointer, queue_push, queue_pop}
use grt.Queue.Shape.{Stores}
use grt.Queue.Fifo.{queue_push-Stores, queue_pop-nil, queue_pop-Stores}

pub data Op : Type 0 where
  push : Pointer → Op
  pop : Op

-- The pointers that the pops return.
unfoldable pub run_ops : List Op → Queue → Run (List Pointer)
run_ops [] q = ok []
run_ops (push ud ∷ ops) q = queue_push q ud >>= run_ops ops
run_ops (pop ∷ ops) q = do (ret, q') ← queue_pop q; rest ← run_ops ops q'; ok (ret ∷ rest)

-- The same on a list, where a pop of nothing gives NULL.
unfoldable pub list_ops : List Op → List Pointer → List Pointer
list_ops [] xs = []
list_ops (push ud ∷ ops) xs = list_ops ops (xs ++ ud ∷ [])
list_ops (pop ∷ ops) [] = 0 ∷ list_ops ops []
list_ops (pop ∷ ops) (x ∷ xs) = x ∷ list_ops ops xs

-- No push of NULL.
abbrev pub NonNull : List Op → Type 0
NonNull [] = Unit
NonNull (push ud ∷ ops) = (ud ≢ 0) × NonNull ops
NonNull (pop ∷ ops) = NonNull ops

-- On a queue that stores a list, any sequence of pushes of pointers other than NULL and of pops
-- never fails, and its pops return what the same sequence on the list returns, NULL for a pop of
-- nothing.
pub run_ops-list_ops :
    (ops : List Op) (q : Queue) (xs : List Pointer)
    → Stores q xs
    → NonNull ops
    → run_ops ops q ≡ ok (list_ops ops xs)
unfolding run_ops list_ops
run_ops-list_ops [] q xs s h = refl
run_ops-list_ops (push ud ∷ ops) q xs s h =
    let (q', run, s') = queue_push-Stores ud s h.0 in
    rw run (run_ops-list_ops ops q' (xs ++ ud ∷ []) s' h.1)
run_ops-list_ops (pop ∷ ops) q [] s h = rw (queue_pop-nil s, run_ops-list_ops ops q [] s h)
run_ops-list_ops (pop ∷ ops) q (x ∷ xs) s h =
    let (q', run, s') = queue_pop-Stores x xs s in rw (run, run_ops-list_ops ops q' xs s' h)
