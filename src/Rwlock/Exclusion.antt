-- ===== src/Rwlock/Exclusion.antt =====
-- A writer of a lock in a file is alone (sky/src/sky_rwlock.c).
use skysdk.Base.{ℕ, ◌≡◌, some, List}
use skysdk.Rwlock.{Mode}
use skysdk.Rwlock.Holders.{Ops, Documented, Event, holds}

module _ {L : Type 0} (ops : Ops L) (Valid : L → Type 0) (doc : Documented ops Valid) where
  -- what a handle believes to have, its descriptor has
  abbrev Agrees : List Event → L → Type 0
  Agrees es l =
      Valid l × ((fd : ℕ) (mode : Mode) → holds fd es ≡ some mode → ops.held l fd ≡ some mode)
