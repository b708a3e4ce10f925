-- ===== src/Protection/Counts.antt =====
-- How the updates of the table `protection` change the numbers that the invariant counts: the rows of
-- a request, those of them that are still PLANNED, and the stop orders posted for it.
use moex_tinvest_bot.Base.{
  ℕ, Bool, false, Option, none, List, [], ◌∷◌, ◌≡◌, ◌≤◌, ◌+◌, refl, count, find, map, arith, ◌==◌,
  if◌then◌else◌,
}
use moex_tinvest_bot.Domain.{Text}
use moex_tinvest_bot.Protection.Table.{
  State, planned, post_pending, Protected, Store, is_planned, for_request, is_open_plan,
  is_reserved, set_state, set_stop,
}

-- The stop orders that entered the transport for a request.
abbrev pub posted : Text → Store → ℕ
posted id s = count (λ p. p == id) s.posts

module _ (id hash : Text) (state : State) (stop : Option Text) where
  pub has-set_stop :
      (r : Text) (rows : List Protected)
      → count (for_request r) (map (set_stop id hash state stop) rows) ≡ count (for_request r) rows
  has-set_stop r [] = refl
  has-set_stop r (x ∷ rows) = ground (arith, has-set_stop r rows)

  pub open-set_stop :
      is_planned state ≡ false
      → (r : Text) (rows : List Protected)
      → count (is_open_plan r) (map (set_stop id hash state stop) rows)
        ≤ count (is_open_plan r) rows
  open-set_stop h r [] = omega arith
  open-set_stop h r (x ∷ rows) = ground (arith, open-set_stop h r rows)

pub has-set_state :
    (p : Protected → Bool) (state : State) (r : Text) (rows : List Protected)
    → count (for_request r) (map (set_state p state) rows) ≡ count (for_request r) rows
has-set_state p state r [] = refl
has-set_state p state r (x ∷ rows) = ground (arith, has-set_state p state r rows)

-- The compare-and-swap takes the request's open plans away, and no others.
pub open-reserve :
    (id r : Text) (rows : List Protected)
    → count (is_open_plan r) (map (set_state (is_open_plan id) post_pending) rows)
        + (if r == id then count (is_open_plan id) rows else 0)
      ≡ count (is_open_plan r) rows
open-reserve id r [] = ground arith
open-reserve id r (x ∷ rows) = ground (arith, open-reserve id r rows)

-- Giving a reservation back opens the rows that were reserved, and no others.
pub open-release :
    (id hash r : Text) (rows : List Protected)
    → count (is_open_plan r) (map (set_state (is_reserved id hash) planned) rows)
      ≡ count (is_open_plan r) rows + (if r == id then count (is_reserved id hash) rows else 0)
open-release id hash r [] = ground arith
open-release id hash r (x ∷ rows) = ground (arith, open-release id hash r rows)

pub has-zero :
    (id : Text) (rows : List Protected)
    → find (for_request id) rows ≡ none
    → count (for_request id) rows ≡ 0
has-zero id [] h = refl
has-zero id (x ∷ rows) h = ground (arith, has-zero id rows)
