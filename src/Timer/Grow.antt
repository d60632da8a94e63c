-- ===== src/Timer/Grow.antt =====
-- timer_add of src/timer/timer.c.
use grt.Base.{
  ℕ, ◌-◌, ◌*◌, ◌/◌, ◌≤◌, ◌≡◌, arith, List, length, take, replicate, length-append, length-take,
  length-replicate,
}
use grt.Base.Run.{wild}
use grt.Timer.{Pointer, Timer, timer_add, grow, realloc_heap}

length-realloc_heap :
    (cells : List Pointer) (bytes : ℕ) → length (realloc_heap cells bytes) ≡ bytes / 8
length-realloc_heap cells bytes = omega (
  arith,
  length-append (take (bytes / 8) cells) (replicate (bytes / 8 - length cells) 0),
  length-take (bytes / 8) cells,
  length-replicate {A = Pointer} (bytes / 8 - length cells) 0,
)

-- When `size` has reached `cap`, timer_add of any event writes outside the array, since the array
-- that realloc returns has room for a quarter of the old capacity.
pub timer_add-full : (t : Timer) (ev : Pointer) → t.cap ≤ t.size → timer_add t ev ≡ wild
unfolding timer_add grow
timer_add-full t ev full = ground (arith, length-realloc_heap t.heap (t.cap * 2))
