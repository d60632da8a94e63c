-- ===== src/Kqueue/Notes.antt =====
-- The filters that the calls of src/async/socket_kqueue.h leave in a kqueue.
use grt.Base.{
  ℕ, ◌-◌, ◌^◌, ◌≡◌, refl, ◌∙◌, Bool, true, false, Option, none, some, List, [], ◌∷◌, ◌==◌, ◌&&◌,
  if◌then◌else◌, Bool-cases, inl, inr, bit_or, ap,
}
use grt.Socket.{Fd}
use grt.Kqueue.{Kernel, sp_add, sp_del, sp_write}

-- An event that the kernel watches.
pub record Note : Type 0 where
  pub enabled : Bool
  pub udata : ℕ

-- A kqueue knows an event by its descriptor and its filter.
abbrev pub Notes : Type 0
Notes = Fd → ℕ → Option Note

abbrev pub put_note : Notes → Fd → ℕ → Option Note → Notes
put_note notes sock filter x j g = if (sock == j) && (filter == g) then x else notes j g

-- What the manual says of kevent on a kqueue with room: EV_ADD adds an event, enabled, or changes one
-- that is there; EV_DELETE removes it; EV_ENABLE and EV_DISABLE fail on an event that is not there.
-- A call that fails changes nothing. And the numbers of the two filters are -1 and -2.
pub record KeventLaw {W : Type 0} (k : Kernel W) (kfd : Fd) (notes : W → Notes) : Type 0 where
  pub read_number : k.evfilt_read ≡ 2 ^ 32 - 1
  pub write_number : k.evfilt_write ≡ 2 ^ 32 - 2
  pub adds :
      (w : W) (sock : Fd) (filter ud : ℕ) (j : Fd) (g : ℕ)
      → notes
          (k.change w kfd
            (record { ident = sock; filter = filter; flags = k.ev_add; udata = ud })).1
          j
          g
        ≡ put_note (notes w) sock filter (some (record { enabled = true; udata = ud })) j g
  pub deletes :
      (w : W) (sock : Fd) (filter ud : ℕ) (j : Fd) (g : ℕ)
      → notes
          (k.change w kfd
            (record { ident = sock; filter = filter; flags = k.ev_delete; udata = ud })).1
          j
          g
        ≡ put_note (notes w) sock filter none j g
  pub enable_none :
      (w : W) (sock : Fd) (filter ud : ℕ) (enable : Bool)
      → notes w sock filter ≡ none
      → (j : Fd) (g : ℕ)
      → notes
          (k.change w kfd (record {
            ident = sock;
            filter = filter;
            flags = if enable then k.ev_enable else k.ev_disable;
            udata = ud;
          })).1
          j
          g
        ≡ notes w j g

-- a call of the poller
pub data Call : Type 0 where
  add : Fd → ℕ → Call
  del : Fd → Call
  writing : Fd → ℕ → Bool → Call

-- The sockets that were added and not deleted since, with their data.
abbrev pub Watched : Type 0
Watched = Fd → Option ℕ

abbrev pub watch : Watched → Call → Watched
watch s (add sock ud) j = if sock == j then some ud else s j
watch s (del sock) j = if sock == j then none else s j
watch s (writing sock ud enable) j = s j

abbrev pub watch_all : Watched → List Call → Watched
watch_all s [] = s
watch_all s (c ∷ cs) = watch_all (watch s c) cs

abbrev pub note_of : Option ℕ → Option Note
note_of none = none
note_of (some ud) = some (record { enabled = true; udata = ud })

-- A watched socket is watched for input, with its data, and nothing for output.
pub record ReadsOnly {W : Type 0} (k : Kernel W) (notes : W → Notes) (w : W) (s : Watched)
    : Type 0 where
  pub noted : (j : Fd) (g : ℕ) → notes w j g ≡ (if k.evfilt_read == g then note_of (s j) else none)

module _ {W : Type 0} (k : Kernel W) (kfd : Fd) where
  abbrev pub call : W → Call → W
  call w (add sock ud) = (sp_add k w kfd sock ud).1
  call w (del sock) = sp_del k w kfd sock
  call w (writing sock ud enable) = sp_write k w kfd sock ud enable

  abbrev pub call_all : W → List Call → W
  call_all w [] = w
  call_all w (c ∷ cs) = call_all (call w c) cs

  module _ (notes : W → Notes) where
    module _ (law : KeventLaw k kfd notes) where
      both_filters : bit_or k.evfilt_read k.evfilt_write ≡ k.evfilt_read
      both_filters = rw (law.read_number, law.write_number) refl

      put-ReadsOnly :
          (w : W) (s : Watched) (sock : Fd) (x : Option ℕ)
          → ReadsOnly k notes w s
          → (j : Fd) (g : ℕ)
          → put_note (notes w) sock k.evfilt_read (note_of x) j g
            ≡ (if k.evfilt_read == g then note_of (if sock == j then x else s j) else none)
      put-ReadsOnly w s sock x v j g = elim (Bool-cases (sock == j)) [
        | inl e ↦ elim (Bool-cases (k.evfilt_read == g)) [
          | inl e' ↦ rw (e, e') refl
          | inr e' ↦ rw (e, e', v.noted j g, e') refl
        ]
        | inr e ↦ rw (e, v.noted j g) refl
      ]

      no_output :
          (w : W) (s : Watched) (sock : Fd)
          → ReadsOnly k notes w s
          → notes w sock k.evfilt_write ≡ none
      no_output w s sock v =
          let other : (k.evfilt_read == k.evfilt_write) ≡ false =
            rw (law.read_number, law.write_number) refl in
          v.noted sock k.evfilt_write ∙ rw other refl

      call-ReadsOnly :
          (w : W) (s : Watched) (c : Call)
          → ReadsOnly k notes w s
          → ReadsOnly k notes (call w c) (watch s c)
      unfolding sp_add sp_del sp_write
      call-ReadsOnly w s (add sock ud) v = record {
        noted =
            λ j g. law.adds w sock k.evfilt_read ud j g ∙ put-ReadsOnly w s sock (some ud) v j g;
      }
      call-ReadsOnly w s (del sock) v = record {
        noted = λ j g.
            law.deletes w sock (bit_or k.evfilt_read k.evfilt_write) 0 j g
            ∙ ap (λ f. put_note (notes w) sock f none j g) both_filters
            ∙ put-ReadsOnly w s sock none v j g;
      }
      call-ReadsOnly w s (writing sock ud enable) v = record {
        noted = λ j g.
            law.enable_none w sock k.evfilt_write ud enable (no_output w s sock v) j g
            ∙ v.noted j g;
      }

      -- When kevent is as the manual says, with the filters -1 for input and -2 for output and
      -- room in the kernel, any calls of sp_add, sp_del and sp_write keep the kqueue watching
      -- exactly the sockets that were added and not deleted since, each for input with its last
      -- data, and none of them for output: sp_write never has an effect, and the one filter that
      -- sp_del deletes is the one that sp_add added.
      pub call_all-ReadsOnly :
          (w : W) (s : Watched) (cs : List Call)
          → ReadsOnly k notes w s
          → ReadsOnly k notes (call_all w cs) (watch_all s cs)
      call_all-ReadsOnly w s [] v = v
      call_all-ReadsOnly w s (c ∷ cs) v =
          call_all-ReadsOnly (call w c) (watch s c) cs (call-ReadsOnly w s c v)
