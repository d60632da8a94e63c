-- ===== src/SelectPool/Table.antt =====
-- The table of src/async/socket_select.h as a list of sockets.
use grt.Base.{
  ℕ, suc, ◌+◌, ◌-◌, ◌*◌, ◌<◌, ◌≤◌, ltb, ◌≡◌, refl, Bool, true, false, Option, none, some, arith,
  List, [], ◌∷◌, ◌++◌, append_assoc, length, length-append, length-replicate, set, replicate,
  Bool-cases, inl, inr, ◌==◌, leb, if◌then◌else◌, ap, sym, ◌∙◌,
}
use grt.Base.Run.{ok, store, store-ok}
use grt.SelectPool.{
  SocketFd, SelectPool, load_socket, expand_pool, sp_add, del_loop, sp_del, sp_create,
}

abbrev pub Cell : Type 0
Cell = Option SocketFd

abbrev pub written : List SocketFd → List Cell
written [] = []
written (x ∷ xs) = some x ∷ written xs

length-written : (xs : List SocketFd) → length (written xs) ≡ length xs
length-written [] = refl
length-written (x ∷ xs) = ap suc (length-written xs)

written-append : (xs ys : List SocketFd) → written (xs ++ ys) ≡ written xs ++ written ys
written-append [] ys = refl
written-append (x ∷ xs) ys = ap (◌∷◌ (some x)) (written-append xs ys)

-- Reads and writes behind a front part.
load-behind :
    (front more : List Cell) (x : SocketFd)
    → load_socket (front ++ some x ∷ more) (length front) ≡ ok x
load-behind [] more x = refl
load-behind (y ∷ front) more x = load-behind front more x

load-next :
    (front more : List Cell) (c : Cell) (x : SocketFd)
    → load_socket (front ++ c ∷ some x ∷ more) (suc (length front)) ≡ ok x
load-next [] more c x = refl
load-next (y ∷ front) more c x = load-next front more c x

set-behind :
    (front more : List Cell) (c d : Cell)
    → set (front ++ c ∷ more) (length front) d ≡ front ++ d ∷ more
set-behind [] more c d = refl
set-behind (x ∷ front) more c d = ap (◌∷◌ x) (set-behind front more c d)

store-behind :
    (front more : List Cell) (c d : Cell)
    → store (front ++ c ∷ more) (length front) d ≡ ok (front ++ d ∷ more)
store-behind front more c d =
    let inside : length front < length (front ++ c ∷ more) =
      omega (arith, length-append front (c ∷ more)) in
    store-ok (front ++ c ∷ more) (length front) d inside ∙ ap ok (set-behind front more c d)

-- `sp` stores the sockets `xs`.
pub record Lists (sp : SelectPool) (xs : List SocketFd) : Type 0 where
  pub junk : List Cell
  pub content : sp.cells ≡ written xs ++ junk
  pub count : sp.socket_n ≡ length xs
  pub wide : length sp.cells ≡ sp.cap

-- The list without the first entry of a socket.
abbrev pub without : List SocketFd → ℕ → List SocketFd
without [] sock = []
without (x ∷ xs) sock = if x.fd == sock then xs else x ∷ without xs sock

-- The rounds of sp_del behind the socket: every cell moves down by one.
del_loop-moving :
    (front : List Cell) (c : Cell) (ys : List SocketFd) (junk : List Cell) (i sock : ℕ)
    → i ≡ suc (length front)
    → (last : Cell) × (del_loop (length ys) i true (front ++ c ∷ (written ys ++ junk)) sock
        ≡ ok (true, front ++ (written ys ++ last ∷ junk)))
unfolding del_loop
del_loop-moving front c [] junk i sock at = (c, refl)
del_loop-moving front c (y ∷ ys) junk i sock at =
    let grown = front ++ some y ∷ [] in
    let next : i + 1 ≡ suc (length grown) = omega (arith, at, length-append front (some y ∷ [])) in
    let (last, run) = del_loop-moving grown (some y) ys junk (i + 1) sock next in
    let here : load_socket (front ++ c ∷ some y ∷ (written ys ++ junk)) i ≡ ok y =
      ap (load_socket (front ++ c ∷ some y ∷ (written ys ++ junk))) at
      ∙ load-next front (written ys ++ junk) c y in
    let before : i - 1 ≡ length front = omega (arith, at) in
    let kept =
      ap (λ j. store (front ++ c ∷ some y ∷ (written ys ++ junk)) j (some y)) before
      ∙ store-behind front (some y ∷ (written ys ++ junk)) c (some y) in
    let run' =
      ap (λ cells. del_loop (length ys) (i + 1) true cells sock)
        (sym (append_assoc front (some y ∷ []) (some y ∷ (written ys ++ junk))))
      ∙ run
      ∙ ap (λ cells. ok (true, cells))
          (append_assoc front (some y ∷ []) (written ys ++ last ∷ junk)) in
    (last, rw (here, kept, run'))

-- All rounds: the first entry of the socket is taken out, and the table is one shorter if there was
-- one.
del_loop-without :
    (front : List Cell) (xs : List SocketFd) (junk : List Cell) (i sock : ℕ)
    → i ≡ length front
    → (b : Bool) × (rest : List Cell) × (del_loop
          (length xs)
          i
          false
          (front ++ (written xs ++ junk))
          sock
        ≡ ok (b, front ++ (written (without xs sock) ++ rest)))
      × ((if b then 1 else 0) + length (without xs sock) ≡ length xs)
      × (length rest ≡ (if b then 1 else 0) + length junk)
unfolding del_loop
del_loop-without front [] junk i sock at = (false, junk, refl, ground arith, ground arith)
del_loop-without front (x ∷ xs) junk i sock at =
    let here : load_socket (front ++ some x ∷ (written xs ++ junk)) i ≡ ok x =
      ap (load_socket (front ++ some x ∷ (written xs ++ junk))) at
      ∙ load-behind front (written xs ++ junk) x in
    elim (Bool-cases (x.fd == sock)) [
      | inl e ↦
          let (last, run) =
            del_loop-moving front (some x) xs junk (i + 1) sock (omega (arith, at)) in
          (true, last ∷ junk, rw (here, e, run), ground arith, ground arith)
      | inr e ↦
          let grown = front ++ some x ∷ [] in
          let next : i + 1 ≡ length grown = omega (arith, at, length-append front (some x ∷ [])) in
          let (b, rest, run, fewer, longer) = del_loop-without grown xs junk (i + 1) sock next in
          let run' =
            ap (λ cells. del_loop (length xs) (i + 1) false cells sock)
              (sym (append_assoc front (some x ∷ []) (written xs ++ junk)))
            ∙ run
            ∙ ap (λ cells. ok (b, cells))
                (append_assoc front (some x ∷ []) (written (without xs sock) ++ rest)) in
          (b, rest, rw (here, e, run'), ground (arith, fewer), longer)
    ]

pub sp_create-Lists : Lists sp_create []
unfolding sp_create
sp_create-Lists = record { junk = replicate 16 none; content = refl; count = refl; wide = refl }

-- On a pool that lists some sockets, sp_del ends well with a pool that lists them without the
-- first entry of that socket, the others in their order; nothing changes in the list if the socket
-- is not there.
pub sp_del-Lists :
    (sp : SelectPool) (xs : List SocketFd) (sock : ℕ)
    → Lists sp xs
    → (sp' : SelectPool) × (sp_del sp sock ≡ ok sp') × Lists sp' (without xs sock)
unfolding sp_del
sp_del-Lists sp xs sock v =
    let (b, rest, run, fewer, longer) = del_loop-without [] xs v.junk 0 sock refl in
    let now = written (without xs sock) ++ rest in
    (
      record sp { cells = now; socket_n = if b then sp.socket_n - 1 else sp.socket_n },
      rw (v.content, v.count, run),
      record {
        junk = rest;
        content = refl;
        count = ground (arith, fewer, v.count);
        wide = same_length b rest fewer longer;
      },
    )
  where
    same_length :
        (b : Bool) (rest : List Cell)
        → (if b then 1 else 0) + length (without xs sock) ≡ length xs
        → length rest ≡ (if b then 1 else 0) + length v.junk
        → length (written (without xs sock) ++ rest) ≡ sp.cap
    same_length b rest fewer longer = omega (
      arith,
      length-append (written (without xs sock)) rest,
      length-written (without xs sock),
      length-append (written xs) v.junk,
      length-written xs,
      ap length v.content,
      v.wide,
      fewer,
      longer,
    )

write_next :
    (xs : List SocketFd) (junk : List Cell) (n : ℕ) (e : SocketFd)
    → n ≡ length xs
    → 0 < length junk
    → (rest : List Cell) × (store (written xs ++ junk) n (some e)
        ≡ ok (written (xs ++ e ∷ []) ++ rest))
      × (suc (length rest) ≡ length junk)
write_next xs [] n e at some_cell = absurd (omega arith)
write_next xs (c ∷ rest) n e at some_cell =
    let there : n ≡ length (written xs) = omega (arith, at, length-written xs) in
    (
      rest,
      ap (λ j. store (written xs ++ c ∷ rest) j (some e)) there
          ∙ store-behind (written xs) rest c (some e)
          ∙ ap ok (sym (append_assoc (written xs) (some e ∷ []) rest))
          ∙ ap (λ front. ok (front ++ rest)) (sym (written-append xs (e ∷ []))),
      refl,
    )

-- On a pool that lists fewer sockets than its capacity, sp_add ends well with a pool that lists
-- the new socket, not waiting to write, behind the others.
pub sp_add-Lists :
    (sp : SelectPool) (xs : List SocketFd) (sock ud : ℕ)
    → Lists sp xs
    → length xs < sp.cap
    → (sp' : SelectPool) × (sp_add sp sock ud ≡ ok sp')
      × Lists sp' (xs ++ record { fd = sock; ud = ud; write = false } ∷ [])
unfolding sp_add
sp_add-Lists sp xs sock ud v room =
    let entry : SocketFd = record { fd = sock; ud = ud; write = false } in
    let long = length-append (written xs) v.junk in
    let cells = ap length v.content in
    let (rest, run, fewer) =
      write_next xs v.junk sp.socket_n entry v.count
        (omega (arith, long, cells, length-written xs, v.wide, room)) in
    let fits : leb sp.cap sp.socket_n ≡ false = ground (arith, v.count, room) in
    let kept = ap (λ old. store old sp.socket_n (some entry)) v.content ∙ run in
    (
      record sp { cells = written (xs ++ entry ∷ []) ++ rest; socket_n = sp.socket_n + 1 },
      rw (fits, kept),
      record {
        junk = rest;
        content = refl;
        count = omega (arith, v.count, length-append xs (entry ∷ []));
        wide = omega (
          arith,
          length-append (written (xs ++ entry ∷ [])) rest,
          length-written (xs ++ entry ∷ []),
          length-append xs (entry ∷ []),
          length-written xs,
          fewer,
          long,
          cells,
          v.wide,
        );
      },
    )

-- On a pool with as many sockets as its capacity, which is not 0, sp_add ends well with a pool
-- that lists the new socket only: the others are forgotten.
pub sp_add-forgets :
    (sp : SelectPool) (xs : List SocketFd) (sock ud : ℕ)
    → Lists sp xs
    → length xs ≡ sp.cap
    → 0 < sp.cap
    → (sp' : SelectPool) × (sp_add sp sock ud ≡ ok sp')
      × Lists sp' (record { fd = sock; ud = ud; write = false } ∷ [])
unfolding sp_add expand_pool
sp_add-forgets sp xs sock ud v full some_cell =
    let entry : SocketFd = record { fd = sock; ud = ud; write = false } in
    let wide : List Cell = sp.cells ++ replicate sp.cap none in
    let long : length wide ≡ sp.cap * 2 = omega (
      arith,
      length-append sp.cells (replicate {A = Cell} sp.cap none),
      length-replicate {A = Cell} sp.cap none,
      v.wide,
    ) in
    let (rest, run, fewer) = write_next [] wide 0 entry refl (omega (arith, long, some_cell)) in
    let crowded : leb sp.cap sp.socket_n ≡ true = ground (arith, v.count, full) in
    (
      record { select_n = 0; cap = sp.cap * 2; socket_n = 1; cells = some entry ∷ rest },
      rw (crowded, run),
      record { junk = rest; content = refl; count = refl; wide = omega (arith, fewer, long) },
    )

-- On a pool that lists at most as many sockets as its capacity, which is not 0, sp_add ends well
-- with a pool that lists the new socket, not waiting to write, behind the others; but when there
-- were as many as the capacity, the others are forgotten.
pub sp_add-Lists_or_forgets :
    (sp : SelectPool) (xs : List SocketFd) (sock ud : ℕ)
    → Lists sp xs
    → length xs ≤ sp.cap
    → 0 < sp.cap
    → (sp' : SelectPool) × (sp_add sp sock ud ≡ ok sp')
      × Lists sp' (
          (if ltb (length xs) sp.cap then xs else [])
          ++ record { fd = sock; ud = ud; write = false } ∷ [])
sp_add-Lists_or_forgets sp xs sock ud v fits some_cell =
    elim (Bool-cases (ltb (length xs) sp.cap)) [
      | inl room ↦ rw room (sp_add-Lists sp xs sock ud v (ground arith))
      | inr full ↦ rw full (sp_add-forgets sp xs sock ud v (ground arith) some_cell)
    ]
