-- ===== src/SkyList/Addresses.antt =====
-- Lists of addresses without repetition.
use skysdk.Base.{◌≡◌, refl, ◌==◌, ◌||◌, Bool, true, false, List, [], ◌∷◌, ◌++◌, arith}
use skysdk.SkyList.{Ptr}

abbrev pub has : Ptr → List Ptr → Bool
has p [] = false
has p (q ∷ qs) = (q == p) || has p qs

-- no address twice
abbrev pub Uniq : List Ptr → Type 0
Uniq [] = Unit
Uniq (p ∷ ps) = (has p ps ≡ false) × Uniq ps

pub has-append : (p : Ptr) (xs ys : List Ptr) → has p (xs ++ ys) ≡ (has p xs || has p ys)
has-append p [] ys = refl
has-append p (x ∷ xs) ys = ground (arith, has-append p xs ys)

-- membership does not depend on where an address stands
pub has-middle :
    (p : Ptr) (xs : List Ptr) (x : Ptr) (ys : List Ptr)
    → has p (xs ++ x ∷ ys) ≡ has p (x ∷ xs ++ ys)
has-middle p xs x ys = ground (arith, has-append p xs (x ∷ ys), has-append p xs ys)

pub Uniq-take :
    (xs : List Ptr) (x : Ptr) (ys : List Ptr) → Uniq (xs ++ x ∷ ys) → Uniq (x ∷ xs ++ ys)
Uniq-take [] x ys u = u
Uniq-take (z ∷ xs) x ys u =
    let rest = Uniq-take xs x ys u.1 in
    (ground (arith, has-middle z xs x ys), (ground (arith, has-middle z xs x ys), rest.1))

pub Uniq-put : (xs : List Ptr) (x : Ptr) (ys : List Ptr) → Uniq (x ∷ xs ++ ys) → Uniq (xs ++ x ∷ ys)
Uniq-put [] x ys u = u
Uniq-put (z ∷ xs) x ys u =
    (ground (arith, has-middle z xs x ys), Uniq-put xs x ys (ground arith, u.1.1))

pub Uniq-prefix : (xs ys : List Ptr) → Uniq (xs ++ ys) → Uniq xs
Uniq-prefix [] ys u = tt
Uniq-prefix (x ∷ xs) ys u = (ground (arith, has-append x xs ys), Uniq-prefix xs ys u.1)

pub Uniq-suffix : (xs ys : List Ptr) → Uniq (xs ++ ys) → Uniq ys
Uniq-suffix [] ys u = u
Uniq-suffix (x ∷ xs) ys u = Uniq-suffix xs ys u.1

-- an address of the first part is none of the second
pub Uniq-cross : (xs ys : List Ptr) (p : Ptr) → Uniq (xs ++ ys) → has p xs ≡ true → has p ys ≡ false
Uniq-cross [] ys p u h = cc
Uniq-cross (x ∷ xs) ys p u h = ground (arith, has-append x xs ys, Uniq-cross xs ys p u.1)

pub Uniq-cross_back :
    (xs ys : List Ptr) (p : Ptr) → Uniq (xs ++ ys) → has p ys ≡ true → has p xs ≡ false
Uniq-cross_back [] ys p u h = refl
Uniq-cross_back (x ∷ xs) ys p u h = ground (arith, has-append x xs ys, Uniq-cross_back xs ys p u.1)

-- an address of a list differs from one that is not in it
pub has-ne : (x r : Ptr) (ys : List Ptr) → has x ys ≡ false → has r ys ≡ true → (x == r) ≡ false
has-ne x r [] h m = cc
has-ne x r (y ∷ ys) h m = ground (arith, has-ne x r ys)

pub has-snoc : (r : Ptr) (ys : List Ptr) (b : Ptr) → has r (ys ++ b ∷ []) ≡ (has r ys || b == r)
has-snoc r [] b = ground arith
has-snoc r (y ∷ ys) b = ground (arith, has-snoc r ys b)
