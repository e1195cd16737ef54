-- ===== src/SkyList/Pop.antt =====
-- What a removal of sky/src/sky_list.c comes to, and sky_list_pop_front and sky_list_pop_back.
use mathlib.Core.List.{append-nil, map-append}
use mathlib.Core.Path.{subst}
use skysdk.Base.{
  ◌+◌, ◌≡◌, refl, ap, sym, ◌∙◌, ◌==◌, ltb, lt→ltb, Bool, true, false, Option, none, some, List, [],
  ◌∷◌, ◌++◌, length-append, if◌then◌else◌, arith, ok, Returns, returns,
}
use skysdk.SkyList.{Ptr, null, Store, get_item, get_next, get_prev, set_next, set_prev}
use skysdk.SkyList.Front.{max_size, pop_front, pop_back, recycle}
use skysdk.SkyList.Scan.{scan, remove_if}
use skysdk.SkyList.Addresses.{has, has-append}
use skysdk.SkyList.Linked.{Linked-split, Linked-ends, last, has-last}
use skysdk.SkyList.Insert.{first}
use skysdk.SkyList.Push.{first_lem, first_alive, last_alive}
use skysdk.SkyList.Rep.{IsList, contents}
use skysdk.SkyList.Remove.{removed, removed-IsList, removed-contents, removed_away}

-- The first element that passes, and the list without it.
abbrev pub take_first : (Ptr → Bool) → List Ptr → Option (Ptr × List Ptr)
take_first test [] = none
take_first test (v ∷ vs) =
    if test v
    then some (v, vs)
    else elim (take_first test vs) [ none ↦ none | some r ↦ some (r.0, v ∷ r.1) ]

-- the element that was found, or NULL
abbrev pub data_of : Option (Ptr × List Ptr) → Ptr
data_of none = null
data_of (some r) = r.0

abbrev pub take_last : List Ptr → Option (Ptr × List Ptr)
take_last [] = none
take_last (v ∷ vs) = elim (take_last vs) [ none ↦ some (v, vs) | some r ↦ some (r.0, v ∷ r.1) ]

-- What a removal comes to: NULL and the store as it was, or an element and a list with the rest.
abbrev pub Removed : Store → Option (Ptr × List Ptr) → (Ptr × Store) → Type 0
Removed s none (v, s') = (v ≡ null) × (s' ≡ s)
Removed s (some (w, vs)) (v, s') =
    (v ≡ w)
    × (max_size s' ≡ max_size s)
    × ((ps' : List Ptr) × (qs' : List Ptr) × IsList s' ps' qs' × (contents s' ps' ≡ vs))

module _ (s : Store) (pre post qs : List Ptr) (x : Ptr) (is : IsList s (pre ++ x ∷ post) qs) where
  pub removed-Removed :
      Removed s
        (some (s.heap.item x, contents s pre ++ contents s post))
        (s.heap.item x, removed s x (last s.list.head pre) (first s.list.tail post))
  unfolding max_size
  removed-Removed = (
    refl,
    refl,
    (pre ++ post, x ∷ qs, removed-IsList s pre post qs x is, removed-contents s pre post qs x is),
  )

pub Linked-pos :
    (s : Store) (ps qs : List Ptr) (p : Ptr) → IsList s (p ∷ ps) qs → ltb 0 s.list.count ≡ true
Linked-pos s ps qs p is = lt→ltb 0 s.list.count (omega (arith, is.counted))

module _ (s : Store) (x u w : Ptr) (ux : (u == x) ≡ false) (ax : s.heap.alive x ≡ true)
    (au : s.heap.alive u ≡ true) (aw : s.heap.alive w ≡ true) (nx : s.heap.next x ≡ w)
    (px : s.heap.prev x ≡ u) (end_ne : (x == s.list.tail) ≡ false) where
  pop_front_run :
      s.list.head ≡ u
      → ltb 0 s.list.count ≡ true
      → s.heap.next u ≡ x
      → pop_front s ≡ ok (s.heap.item x, removed s x u w)
  unfolding pop_front get_next get_prev set_next set_prev recycle get_item
  pop_front_run hu some_left nu = simp (hu, some_left, au, nu, end_ne, ax, nx, ux, px, aw)

  pop_back_run :
      s.list.tail ≡ w
      → ltb 0 s.list.count ≡ true
      → s.heap.alive s.list.head ≡ true
      → (s.heap.next s.list.head == w) ≡ false
      → (w == x) ≡ false
      → s.heap.prev w ≡ x
      → pop_back s ≡ ok (s.heap.item x, removed s x u w)
  unfolding pop_back get_next get_prev set_next set_prev recycle get_item
  pop_back_run tw some_left ah not_empty wx pw =
      simp (some_left, ah, not_empty, tw, aw, pw, ax, wx, px, nx, au)

  pub remove_if_run :
      (test : Ptr → Bool)
      → s.heap.alive s.list.head ≡ true
      → scan s.heap s.list.tail test (s.list.count + 1) (s.heap.next s.list.head) ≡ ok x
      → remove_if s test ≡ ok (s.heap.item x, removed s x u w)
  unfolding remove_if get_next get_prev set_next set_prev recycle get_item
  remove_if_run test ah found = simp (ah, found, end_ne, au, ax, nx, ux, px, aw)

-- On a list in order sky_list_pop_front returns. If the list is empty, it gives NULL and changes
-- nothing. Otherwise it gives the first element, and the list is in order and holds the others.
pub pop_front_lem :
    (s : Store) (ps qs : List Ptr)
    → IsList s ps qs
    → Returns (Removed s (take_first (λ _. true) (contents s ps))) (pop_front s)
unfolding pop_front
pop_front_lem s [] qs is =
    let e : ltb 0 s.list.count ≡ false = ground (arith, is.counted) in rw e (returns (refl, refl))
pop_front_lem s (x ∷ ps) qs is =
    let away = removed_away s [] ps qs x is in
    let (n, v, i, l) = is.linked in
    let (nx, px) = first_lem s.heap x ps s.list.tail l in
    let run =
      pop_front_run s x s.list.head (first s.list.tail ps) (ground (arith, away)) i is.head_alive
        (first_alive s.heap x ps s.list.tail l is.tail_alive) nx v (ground (arith, away)) refl
        (Linked-pos s ps qs x is) n in
    rw (run, pop_front) (returns (removed-Removed s [] ps qs x is))

snoc_view : (p : Ptr) (ps : List Ptr) → (pre : List Ptr) × (x : Ptr) × (p ∷ ps ≡ pre ++ x ∷ [])
snoc_view p [] = ([], p, refl)
snoc_view p (q ∷ ps) = let (pre, x, e) = snoc_view q ps in (p ∷ pre, x, ap (λ r. p ∷ r) e)

take_last_snoc : (vs : List Ptr) (v : Ptr) → take_last (vs ++ v ∷ []) ≡ some (v, vs)
take_last_snoc [] v = refl
take_last_snoc (w ∷ vs) v = rw (take_last_snoc vs v) refl

first_ne :
    (b : Ptr) (pre : List Ptr) (x : Ptr)
    → has b (pre ++ x ∷ []) ≡ false
    → (first x pre == b) ≡ false
first_ne b [] x out = ground arith
first_ne b (p ∷ pre) x out = ground arith

pop_back_snoc :
    (s : Store) (pre : List Ptr) (x : Ptr) (qs : List Ptr)
    → IsList s (pre ++ x ∷ []) qs
    → Returns (Removed s (take_last (contents s (pre ++ x ∷ [])))) (pop_back s)
pop_back_snoc s pre x qs is =
    let away = removed_away s pre [] qs x is in
    let (left, ax, right) = Linked-split s.heap s.list.head pre x [] s.list.tail is.linked in
    let (front_next, front_prev) = first_lem s.heap s.list.head pre x left in
    let ends = Linked-ends s.heap s.list.head pre x left in
    let some_left : ltb 0 s.list.count ≡ true =
      lt→ltb 0 s.list.count (omega (arith, is.counted, length-append {0} pre (x ∷ []))) in
    let first_has : (first x pre == s.list.tail) ≡ false =
      first_ne s.list.tail pre x
        (ground (arith, away, is.distinct.1.0, has-append s.list.tail (pre ++ x ∷ []) qs)) in
    let run =
      pop_back_run s x (last s.list.head pre) s.list.tail
        (has-last x s.list.head pre (ground (arith, away, has-append x pre []))) ax
        (last_alive s.heap s.list.head pre x left is.head_alive) is.tail_alive right.0 ends.1
        (ground (arith, away)) refl some_left is.head_alive (ground (arith, front_next, first_has))
        (ground (arith, away)) right.1 in
    let e : take_last (contents s (pre ++ x ∷ [])) ≡ some (s.heap.item x, contents s pre) =
      ap take_last (map-append s.heap.item pre (x ∷ []))
      ∙ take_last_snoc (contents s pre) (s.heap.item x) in
    rw (run, e)
      (returns (
        subst
          (λ vs.
            Removed s (some (s.heap.item x, vs))
              (s.heap.item x, removed s x (last s.list.head pre) s.list.tail))
          (append-nil (contents s pre)) (removed-Removed s pre [] qs x is)))

-- On a list in order sky_list_pop_back returns. If the list is empty, it gives NULL and changes
-- nothing. Otherwise it gives the last element, and the list is in order and holds the others.
pub pop_back_lem :
    (s : Store) (ps qs : List Ptr)
    → IsList s ps qs
    → Returns (Removed s (take_last (contents s ps))) (pop_back s)
unfolding pop_back
pop_back_lem s [] qs is =
    let e : ltb 0 s.list.count ≡ false = ground (arith, is.counted) in rw e (returns (refl, refl))
pop_back_lem s (p ∷ ps) qs is =
    let (pre, x, e) = snoc_view p ps in
    subst (λ z. Returns (Removed s (take_last (contents s z))) (pop_back s)) (sym e)
      (pop_back_snoc s pre x qs (subst (λ z. IsList s z qs) e is))
