-- ===== src/Epoll/Watch.antt =====
-- epoll_ctl of src/async/epoll.c: which sockets the kernel watches, and what for.
use grt.Base.{
  ℕ, bit_or, true, refl, ◌≡◌, inl, inr, Bool, false, Option, none, some, List, [], ◌∷◌, arith, ◌==◌,
  if◌then◌else◌, Bool-cases, Option-cases, ap, ◌∙◌,
}
use grt.Base.Bits.{bit_or-zero}
use grt.Socket.{Fd}
use grt.Epoll.{EpollEvent, Kernel, interest_flags, lepoll_ctl}

abbrev pub Interest : Type 0
Interest = Fd → Option EpollEvent

abbrev pub put {ℓ} : {A : Type ℓ} → (Fd → Option A) → Fd → Option A → Fd → Option A
put f sock x j = if sock == j then x else f j

-- What the manual says of epoll_ctl on a kernel with room: the interest list of `efd`, which
-- ADD extends if the socket is not in it, MOD changes if it is, and DEL shortens. A call that
-- fails changes nothing.
pub record CtlLaw {W : Type 0} (k : Kernel W) (efd : Fd) (interest : W → Interest) : Type 0 where
  pub adds :
      (w : W) (sock : Fd) (ev : EpollEvent)
      → interest w sock ≡ none
      → (j : Fd) → interest (k.epoll_ctl_add w efd sock ev).1 j ≡ put (interest w) sock (some ev) j
  pub add_again :
      (w : W) (sock : Fd) (ev old : EpollEvent)
      → interest w sock ≡ some old
      → (j : Fd) → interest (k.epoll_ctl_add w efd sock ev).1 j ≡ interest w j
  pub changes :
      (w : W) (sock : Fd) (ev old : EpollEvent)
      → interest w sock ≡ some old
      → (j : Fd) → interest (k.epoll_ctl_mod w efd sock ev).1 j ≡ put (interest w) sock (some ev) j
  pub change_none :
      (w : W) (sock : Fd) (ev : EpollEvent)
      → interest w sock ≡ none
      → (j : Fd) → interest (k.epoll_ctl_mod w efd sock ev).1 j ≡ interest w j
  pub deletes :
      (w : W) (sock : Fd) (j : Fd)
      → interest (k.epoll_ctl_del w efd sock).1 j ≡ put (interest w) sock none j

-- The sockets that are watched, and which of them for output too.
abbrev pub Watch : Type 0
Watch = Fd → Option Bool

-- a call of `epoll.ctl`
pub data Ctl : Type 0 where
  add del : Fd → Ctl
  writing : Fd → Bool → Ctl

-- What the calls promise.
abbrev pub watch : Watch → Ctl → Watch
watch s (add fd) = elim (s fd) [ none ↦ put s fd (some false) | some b ↦ s ]
watch s (del fd) = put s fd none
watch s (writing fd b) = elim (s fd) [ none ↦ s | some old ↦ put s fd (some b) ]

abbrev pub watch_all : Watch → List Ctl → Watch
watch_all s [] = s
watch_all s (c ∷ cs) = watch_all (watch s c) cs

module _ {W : Type 0} (k : Kernel W) (efd : Fd) where
  abbrev pub call : W → Ctl → W
  call w (add fd) = lepoll_ctl k w efd 1 fd false
  call w (del fd) = lepoll_ctl k w efd 2 fd false
  call w (writing fd b) = lepoll_ctl k w efd 3 fd b

  abbrev pub call_all : W → List Ctl → W
  call_all w [] = w
  call_all w (c ∷ cs) = call_all (call w c) cs

  -- What a watched socket is polled for: input, and output if it is writing.
  abbrev pub polled : Bool → ℕ
  polled true = bit_or k.epollin k.epollout
  polled false = k.epollin

  -- The event that stands for a watched socket.
  abbrev pub asked : Fd → Option Bool → Option EpollEvent
  asked fd none = none
  asked fd (some b) = some (record { events = polled b; data_ptr = fd })

  abbrev pub Views : (W → Interest) → W → Watch → Type 0
  Views interest w s = (j : Fd) → interest w j ≡ asked j (s j)

  module _ (interest : W → Interest) (law : CtlLaw k efd interest) where
    put-asked :
        (f : Interest) (s : Watch) (fd : Fd) (x : Option Bool)
        → ((j : Fd) → f j ≡ asked j (s j))
        → (j : Fd) → put f fd (asked fd x) j ≡ asked j (put s fd x j)
    put-asked f s fd x v j = elim (Bool-cases (fd == j)) [
      | inl e ↦ let same : fd ≡ j = ground arith in rw e (ap (λ i. asked i x) same)
      | inr e ↦ rw e (v j)
    ]

    asked-watched :
        (w : W) (s : Watch) (fd : Fd) (b : Bool)
        → Views interest w s
        → s fd ≡ some b
        → interest w fd ≡ some (record { events = polled b; data_ptr = fd })
    asked-watched w s fd b v at = v fd ∙ ap (asked fd) at

    asked-none :
        (w : W) (s : Watch) (fd : Fd) → Views interest w s → s fd ≡ none → interest w fd ≡ none
    asked-none w s fd v at = v fd ∙ ap (asked fd) at

    -- what sp_write asks for
    interest_flags-polled :
        (fd : Fd) (b : Bool)
        → Path
            (Option EpollEvent)
            (some (record { events = interest_flags k b; data_ptr = fd }))
            (asked fd (some b))
    interest_flags-polled fd true = refl
    interest_flags-polled fd false =
        ap (λ flags. some (record { events = flags; data_ptr = fd })) (bit_or-zero k.epollin)

    call-Views :
        (w : W) (s : Watch) (c : Ctl) → Views interest w s → Views interest (call w c) (watch s c)
    unfolding lepoll_ctl
    call-Views w s (add fd) v = elim (Option-cases (s fd)) [
      | inl at ↦
          rw (at, watch)
            (λ j.
              law.adds w fd (record { events = k.epollin; data_ptr = fd }) (asked-none w s fd v at)
                j
              ∙ put-asked (interest w) s fd (some false) v j)
      | inr (b, at) ↦
          rw (at, watch)
            (λ j.
              law.add_again w fd (record { events = k.epollin; data_ptr = fd }) _
                (asked-watched w s fd b v at) j
              ∙ v j)
    ]
    call-Views w s (del fd) v = λ j. law.deletes w fd j ∙ put-asked (interest w) s fd none v j
    call-Views w s (writing fd b) v = elim (Option-cases (s fd)) [
      | inl at ↦ rw (at, watch) (λ j. law.change_none w fd _ (asked-none w s fd v at) j ∙ v j)
      | inr (old, at) ↦
          rw (at, watch)
            (λ j.
              law.changes w fd _ _ (asked-watched w s fd old v at) j
              ∙ ap (λ x. put (interest w) fd x j) (interest_flags-polled fd b)
              ∙ put-asked (interest w) s fd (some b) v j)
    ]

    -- When epoll_ctl is as the manual says and the kernel has room, any calls of epoll.ctl keep
    -- the interest list of the kernel the sockets that they leave watched: adding one twice or
    -- changing one that is not watched changes nothing, each is polled for input and, as CTL_WRITE
    -- last said, for output.
    pub call_all-Views :
        (w : W) (s : Watch) (cs : List Ctl)
        → Views interest w s
        → Views interest (call_all w cs) (watch_all s cs)
    call_all-Views w s [] v = v
    call_all-Views w s (c ∷ cs) v = call_all-Views (call w c) (watch s c) cs (call-Views w s c v)
