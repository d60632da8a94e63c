-- ===== src/SelectPool/Tests.antt =====
-- Runs of the table of src/async/socket_select.h, and the theorems at concrete inputs.
use grt.Base.{ℕ, List, ◌+◌, if◌then◌else◌, ◌≡◌, refl, true, false, some, none, arith, [], ◌∷◌}
use grt.Base.Run.{ok, aborted}
use grt.Socket.{done}
use grt.SelectPool.{SocketFd, SelectPool, sp_add, sp_del, sp_write, write_loop}
use grt.SelectPool.Table.{Lists, sp_add-Lists_or_forgets, sp_del-Lists}
use grt.SelectPool.Wait.{Selected, Winsock, contains, sp_wait}
use grt.SelectPool.Sets.{marks}

abbrev socket : ℕ → SocketFd
socket n = record { fd = n; ud = n; write = false }

abbrev some_room : SelectPool
some_room = record {
  select_n = 0;
  cap = 3;
  socket_n = 2;
  cells = some (socket 4) ∷ some (socket 7) ∷ none ∷ [];
}

some_room-Lists : Lists some_room (socket 4 ∷ socket 7 ∷ [])
some_room-Lists = record { junk = none ∷ []; content = refl; count = refl; wide = refl }

abbrev no_room : SelectPool
no_room = record {
  select_n = 0;
  cap = 2;
  socket_n = 2;
  cells = some (socket 4) ∷ some (socket 7) ∷ [];
}

no_room-Lists : Lists no_room (socket 4 ∷ socket 7 ∷ [])
no_room-Lists = record { junk = []; content = refl; count = refl; wide = refl }

write_seven :
    sp_write some_room 7 0 true
    ≡ ok (record some_room {
      cells = some (socket 4) ∷ some (record (socket 7) { write = true }) ∷ none ∷ [];
    })
unfolding sp_write write_loop
write_seven = refl

sp_add-Lists_or_forgets_example :
    (sp' : SelectPool) × (sp_add no_room 9 9 ≡ ok sp') × Lists sp' (socket 9 ∷ [])
sp_add-Lists_or_forgets_example =
    sp_add-Lists_or_forgets no_room (socket 4 ∷ socket 7 ∷ []) 9 9 no_room-Lists (omega arith)
      (omega arith)

sp_del-Lists_example :
    (sp' : SelectPool) × (sp_del some_room 4 ≡ ok sp') × Lists sp' (socket 7 ∷ [])
sp_del-Lists_example = sp_del-Lists some_room (socket 4 ∷ socket 7 ∷ []) 4 some_room-Lists

-- A system that tells which sockets are ready of those it is asked for, and counts both sets.
abbrev kept : List ℕ → List ℕ → List ℕ
kept ready [] = []
kept ready (fd ∷ rest) = if contains ready fd then fd ∷ kept ready rest else kept ready rest

abbrev answer : Selected → List ℕ → List ℕ → Selected
answer ready rd wt = record {
  ret = marks (kept ready.rd rd) rd + marks (kept ready.wt wt) wt;
  rd = kept ready.rd rd;
  wt = kept ready.wt wt;
}

abbrev honest : Winsock Selected
honest = record {
  fd_setsize = 64;
  select = λ ready nfds rd wt ti. (done (answer ready rd wt), ready);
}

abbrev seven_ready : Selected
seven_ready = record { ret = 1; rd = 7 ∷ []; wt = [] }

waits :
    sp_wait honest seven_ready some_room 64 200
    ≡ ok (done (record { s = 7; read = true; write = false } ∷ []), some_room, seven_ready)
unfolding sp_wait
waits = refl

-- select counts a socket twice that is ready both ways, and the assertion fails.
both_ways :
    sp_wait honest
      (record { ret = 2; rd = 7 ∷ []; wt = 7 ∷ [] })
      (record some_room {
        cells = some (socket 4) ∷ some (record (socket 7) { write = true }) ∷ none ∷ [];
      })
      64
      200
    ≡ aborted
unfolding sp_wait
both_ways = refl
