-- ===== src/SelectPool/Window.antt =====
-- The two loops of a round of sp_wait in src/async/socket_select.h, over a window of the table.
use grt.Base.{
  ℕ, zero, suc, ◌+◌, ◌≤◌, ◌<◌, ◌≡◌, ◌⊎◌, inl, inr, refl, Bool, true, false, ◌||◌, arith, List, [],
  ◌∷◌, ◌++◌, append-nil, append_assoc, length, length-append, take, drop, leb, ◌==◌, if◌then◌else◌,
  Bool-cases, ap, sym, ◌∙◌, subst,
}
use grt.Base.Run.{ok}
use grt.Epoll.{Event}
use grt.SelectPool.{SocketFd, SelectPool, load_socket}
use grt.SelectPool.Table.{Lists, Cell, written}
use grt.SelectPool.Wait.{Selected, contains, fd_add, fill_sets, collect}

abbrev pub fds : List SocketFd → List ℕ
fds [] = []
fds (x ∷ xs) = x.fd ∷ fds xs

-- the sockets that are polled for output
abbrev pub writers : List SocketFd → List SocketFd
writers [] = []
writers (x ∷ xs) = if x.write then x ∷ writers xs else writers xs

-- FD_SET of all sockets of a list
abbrev pub add_all : List ℕ → List ℕ → List ℕ
add_all set [] = set
add_all set (fd ∷ rest) = add_all (fd_add set fd) rest

-- select found a socket ready
abbrev pub hit : Selected → ℕ → Bool
hit found fd = contains found.rd fd || contains found.wt fd

-- how many sockets of a list it found ready
abbrev pub hits : Selected → List ℕ → ℕ
hits found [] = 0
hits found (fd ∷ rest) = (if hit found fd then 1 else 0) + hits found rest

-- The events of the ready sockets of a list, in its order.
abbrev pub reports : Selected → List SocketFd → List Event
reports found [] = []
reports found (x ∷ xs) =
    if hit found x.fd
    then record { s = x.ud; read = contains found.rd x.fd; write = contains found.wt x.fd }
      ∷ reports found xs
    else reports found xs

pub length-reports :
    (found : Selected) (xs : List SocketFd) → length (reports found xs) ≡ hits found (fds xs)
length-reports found [] = refl
length-reports found (x ∷ xs) = elim (Bool-cases (hit found x.fd)) [
  | inl e ↦ rw e (omega (arith, length-reports found xs))
  | inr e ↦ rw e (omega (arith, length-reports found xs))
]

load-written :
    (xs : List SocketFd) (junk : List Cell) (i : ℕ)
    → ((drop i xs ≡ []) × (length xs ≤ i))
      ⊎ ((x : SocketFd) × (load_socket (written xs ++ junk) i ≡ ok x)
          × (drop i xs ≡ x ∷ drop (i + 1) xs)
          × (i < length xs))
load-written [] junk zero = inl (refl, omega arith)
load-written [] junk (suc i) = inl (refl, omega arith)
load-written (x ∷ xs) junk zero = inr (x, refl, refl, omega arith)
load-written (x ∷ xs) junk (suc i) = elim (load-written xs junk i) [
  | inl (over, le) ↦ inl (over, omega arith)
  | inr (y, run, rest, lt) ↦
      let next : suc i + 1 ≡ suc (i + 1) = omega arith in
      inr (y, run, rest ∙ ap (λ j. y ∷ drop j (x ∷ xs)) (sym next), omega arith)
]

-- the sockets that a round looks at
abbrev pub window : ℕ → ℕ → List SocketFd → List SocketFd
window n from xs = take n (drop from xs)

module _ {sp : SelectPool} {xs : List SocketFd} (l : Lists sp xs) where
  -- A round of the two loops: behind the last socket, or at one.
  socket_at :
      (i : ℕ)
      → ((leb sp.socket_n i ≡ true) × (drop i xs ≡ []))
        ⊎ ((leb sp.socket_n i ≡ false)
            × (x : SocketFd) × (load_socket sp.cells i ≡ ok x)
            × (drop i xs ≡ x ∷ drop (i + 1) xs))
  socket_at i = elim (load-written xs l.junk i) [
    | inl (over, le) ↦ inl (ground (arith, l.count), over)
    | inr (x, run, rest, lt) ↦
        inr (ground (arith, l.count), x, ap (λ cells. load_socket cells i) l.content ∙ run, rest)
  ]

  pub fill_sets-window :
      (left idx : ℕ) (rd wt : List ℕ) (i : ℕ)
      → (i' : ℕ) × (fill_sets left idx sp rd wt i
          ≡ ok (
            add_all rd (fds (window left idx xs)),
            add_all wt (fds (writers (window left idx xs))),
            i',
          ))
  unfolding fill_sets
  fill_sets-window zero idx rd wt i = (i, refl)
  fill_sets-window (suc left) idx rd wt i = elim (socket_at idx) [
    | inl (over, none_left) ↦ (i, rw (over, none_left) refl)
    | inr (inside, x, run, rest) ↦
        let (i', go) =
          fill_sets-window left (idx + 1) (fd_add rd x.fd) (if x.write then fd_add wt x.fd else wt)
            (i + 1) in
        elim (Bool-cases x.write) [
          | inl on ↦ (i', rw (inside, run, rest, on) (rw on at go))
          | inr off ↦ (i', rw (inside, run, rest, off) (rw off at go))
        ]
  ]

  no_reports :
      (found : Selected) (ys : List SocketFd) → hits found (fds ys) ≡ 0 → reports found ys ≡ []
  no_reports found [] h = refl
  no_reports found (y ∷ ys) h = elim (Bool-cases (hit found y.fd)) [
    | inl e ↦ absurd (ground (arith, h, e))
    | inr e ↦ rw e (no_reports found ys (ground (arith, h, e)))
  ]

  pub collect-window :
      (left idx : ℕ) (found : Selected) (es : List Event)
      → length es + hits found (fds (window left idx xs)) ≤ found.ret
      → collect left idx sp found es ≡ ok (es ++ reports found (window left idx xs))
  unfolding collect
  collect-window zero idx found es h = ap ok (sym (append-nil es))
  collect-window (suc left) idx found es h = elim (socket_at idx) [
    | inl (over, none_left) ↦ rw (over, none_left) (ap ok (sym (append-nil es)))
    | inr (inside, x, run, rest) ↦
        let e : Event = record {
          s = x.ud;
          read = contains found.rd x.fd;
          write = contains found.wt x.fd;
        } in
        let more = es ++ e ∷ [] in
        let ys = window left (idx + 1) xs in
        let long = length-append es (e ∷ []) in
        let here =
          subst (λ ds. length es + hits found (fds (take (suc left) ds)) ≤ found.ret) rest h in
        elim (Bool-cases (hit found x.fd)) [
          | inr miss ↦
              let left_over : length es + hits found (fds ys) ≤ found.ret =
                ground (arith, here, miss) in
              rw (inside, run, rest, miss) (collect-window left (idx + 1) found es left_over)
          | inl met ↦
              let left_over : length more + hits found (fds ys) ≤ found.ret =
                ground (arith, here, met, long) in
              elim (Bool-cases (length more == found.ret)) [
                | inl all ↦
                    let none_left = no_reports found ys (ground (arith, left_over, all)) in
                    rw (inside, run, rest, met, all, none_left) refl
                | inr go_on ↦
                    rw (inside, run, rest, met, go_on)
                      (collect-window left (idx + 1) found more left_over
                        ∙ ap ok (append_assoc es (e ∷ []) (reports found ys)))
              ]
        ]
  ]
