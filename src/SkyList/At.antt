-- ===== src/SkyList/At.antt =====
-- sky_list_insert and sky_list_get_at (sky/src/sky_list.c): the walk to a position.
use mathlib.Core.Path.{subst}
use skysdk.Base.{
  ℕ, zero, suc, ◌≡◌, refl, ap, sym, ◌==◌, ltb, inl, inr, true, false, List, [], ◌∷◌, ◌++◌, map,
  take, drop, if◌then◌else◌, arith, Bool-cases, ok, Returns, returns,
}
use skysdk.SkyList.{Ptr, null, Heap, Store, get_next}
use skysdk.SkyList.Scan.{walk, insert}
use skysdk.SkyList.Addresses.{has, has-append}
use skysdk.SkyList.Linked.{Linked, last, has-last}
use skysdk.SkyList.Link.{inserted, link_before_lem}
use skysdk.SkyList.Insert.{first}
use skysdk.SkyList.Rep.{IsList, contents}
use skysdk.SkyList.Take.{Taken, take_item_lem}
use skysdk.SkyList.Push.{Pushed, first_lem, first_alive, at_limit, put_lem}

take-drop : (n : ℕ) (ps : List Ptr) → take n ps ++ drop n ps ≡ ps
take-drop zero ps = refl
take-drop (suc n) [] = refl
take-drop (suc n) (p ∷ ps) = ap (λ r. p ∷ r) (take-drop n ps)

map-take : (f : Ptr → Ptr) (n : ℕ) (ps : List Ptr) → map f (take n ps) ≡ take n (map f ps)
map-take f zero ps = refl
map-take f (suc n) [] = refl
map-take f (suc n) (p ∷ ps) = ap (λ r. f p ∷ r) (map-take f n ps)

pub map-drop : (f : Ptr → Ptr) (n : ℕ) (ps : List Ptr) → map f (drop n ps) ≡ drop n (map f ps)
map-drop f zero ps = refl
map-drop f (suc n) [] = refl
map-drop f (suc n) (p ∷ ps) = map-drop f n ps

module _ (h : Heap) (b : Ptr) (ends : h.next b ≡ null) (ab : h.alive b ≡ true)
    (dead : h.alive null ≡ false) where
  -- the walk stops at a position of the list, at its end, or at NULL behind it
  pub walk_lem :
      (a : Ptr) (ps : List Ptr) (n : ℕ)
      → Linked h a ps b
      → (r : Ptr) × (walk h (first b ps) n ≡ ok r)
        × ((if r == null then b else r) ≡ first b (drop n ps))
  unfolding walk get_next
  walk_lem a [] zero l = (b, refl, let e : (b == null) ≡ false = ground arith in rw e refl)
  walk_lem a (p ∷ ps) zero (n, v, i, l) =
      (p, refl, let e : (p == null) ≡ false = ground arith in rw e refl)
  walk_lem a [] (suc zero) l =
      let e : (b == null) ≡ false = ground arith in (null, rw (e, ab, ends) refl, refl)
  walk_lem a [] (suc (suc n)) l =
      let e : (b == null) ≡ false = ground arith in (null, rw (e, ab, ends) refl, refl)
  walk_lem a (p ∷ ps) (suc m) (n, v, i, l) =
      let (r, run, at) = walk_lem p ps m l in
      let e : (p == null) ≡ false = ground arith in (r, rw (e, i, (first_lem h p ps b l).0) run, at)

-- a chain reads at any cut of its items
cut_lem :
    (h : Heap) (a : Ptr) (pre post : List Ptr) (b : Ptr)
    → Linked h a (pre ++ post) b
    → h.alive a ≡ true
    → h.alive b ≡ true
    → (h.prev (first b post) ≡ last a pre)
      × (h.alive (first b post) ≡ true)
      × (h.alive (last a pre) ≡ true)
cut_lem h a [] post b l aa ab = ((first_lem h a post b l).1, first_alive h a post b l ab, aa)
cut_lem h a (p ∷ pre) post b (n, v, i, l) aa ab = cut_lem h p pre post b l i ab

module _ (s : Store) (ps qs : List Ptr) (fresh : Ptr) (index : ℕ) (v : Ptr) (is : IsList s ps qs)
    (dead : s.heap.alive fresh ≡ false) where
  -- On a list in order, with `fresh` NULL or an address that is not in use, sky_list_insert
  -- returns. If the list is full, or there is neither a spare item nor memory, it gives false and
  -- changes nothing. Otherwise it gives true, and the list is in order and holds the new element
  -- at the position `index`, or behind the others if there are fewer.
  pub insert_lem :
      Returns
        (Pushed s qs fresh (take index (contents s ps) ++ v ∷ drop index (contents s ps)))
        (insert s fresh index v)
  unfolding insert get_next
  insert_lem = elim (Bool-cases (ltb s.list.count s.list.max_size)) [
    | inr ge ↦ rw ge (returns (refl, inl (at_limit s qs fresh v is.bounded ge)))
    | inl lt ↦ elim (take_item_lem s ps fresh qs is dead) [
      | inl (run, nothing, none_spare) ↦ rw (lt, run) (returns (refl, inr (nothing, none_spare)))
      | inr (x, s', run, taken) ↦
          let (ne, same, limit, held, (qs', d)) = taken in
          let is' = d.rest in
          let pre = take index ps in
          let post = drop index ps in
          let whole = take-drop index ps in
          let (r, walked, at) =
            walk_lem s'.heap s'.list.tail is'.tail_end is'.tail_alive is'.null_dead s'.list.head ps
              index is'.linked in
          let l : Linked s'.heap s'.list.head (pre ++ post) s'.list.tail =
            subst (λ z. Linked s'.heap s'.list.head z s'.list.tail) (sym whole) is'.linked in
          let cut =
            cut_lem s'.heap s'.list.head pre post s'.list.tail l is'.head_alive is'.tail_alive in
          let off : has x (s'.list.head ∷ pre) ≡ false =
            ground (arith, d.away, ap (has x) whole, has-append x pre post, has-append x ps qs') in
          rw
            (
              lt,
              run,
              ne,
              is'.head_alive,
              (first_lem s'.heap s'.list.head ps s'.list.tail is'.linked).0,
              walked,
              at,
              link_before_lem s' x v (last s'.list.head pre) (first s'.list.tail post) cut.0
                  (has-last x s'.list.head pre off) d.live cut.1 cut.2,
            )
            (returns (
              subst
                (λ c.
                  Pushed s qs fresh c
                    (true, inserted s' x v (last s'.list.head pre) (first s'.list.tail post)))
                (rw (map-take s.heap.item index ps, map-drop s.heap.item index ps) refl)
                (put_lem s qs fresh v pre post x s' lt
                  (subst (λ z. Taken s z x s') (sym whole) taken))))
    ]
  ]
