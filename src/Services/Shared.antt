-- ===== src/Services/Shared.antt =====
-- What one Lua state sets in the array of src/system/system.c another one gets.
use grt.Base.{
  ℕ, ◌<◌, ◌≡◌, refl, Option, none, some, List, arith, ◌==◌, if◌then◌else◌, length, set, length-set,
  get_elem?-set, Bool-cases, inl, inr, ◌∙◌,
}
use grt.Base.Run.{ok, store-ok}
use grt.HandleMap.Count.{ℤ, pos}
use grt.Services.{service_max, to_channelid, lget, lset}

-- what `get` shows of a channel
abbrev pub shown : ℕ → Option ℕ
shown c = if c == 0 then none else some c

-- On the array of two cells, set with the index 0 or 1 ends well; get with that index then shows
-- the channel that was set, as an unsigned int, or nil for 0, and get with any other index, also
-- outside the array, does what it did before.
pub lget-lset :
    (table : List ℕ) (i j : ℕ) (ch : ℤ)
    → length table ≡ service_max
    → i < service_max
    → (u : List ℕ) × (lset table (pos i) ch ≡ ok u)
      × (length u ≡ service_max)
      × (lget u (pos j) ≡ (if i == j then ok (shown (to_channelid ch)) else lget table (pos j)))
unfolding lget lset
lget-lset table i j ch two lt =
    let inside : i < length table = omega (arith, two, lt) in
    let cell = get_elem?-set table i j (to_channelid ch) inside in
    (
      set table i (to_channelid ch),
      store-ok table i (to_channelid ch) inside,
      length-set table i (to_channelid ch) ∙ two,
      elim (Bool-cases (i == j)) [
        | inl e ↦ rw (cell, e) (both (to_channelid ch))
        | inr e ↦ rw (cell, e) refl
      ],
    )
  where
    both : (c : ℕ) → (if c == 0 then ok none else ok (some c)) ≡ ok (shown c)
    both c = elim (Bool-cases (c == 0)) [ inl e ↦ rw e refl | inr e ↦ rw e refl ]
