-- ===== src/SkyList/Push.antt =====
-- sky_list_push_front and sky_list_push_back (sky/src/sky_list.c), and what an insertion comes to.
use mathlib.Core.List.{append-nil, map-append}
use mathlib.Core.Path.{subst}
use skysdk.Base.{
  ◌≤◌, ◌<◌, ◌≡◌, refl, sym, ◌∙◌, ltb, ltb→lt, lt→ltb, ◌⊎◌, inl, inr, Bool, true, false, List, [],
  ◌∷◌, ◌++◌, length, length-map, arith, Bool-cases, Returns, returns,
}
use skysdk.SkyList.{Ptr, null, Heap, Store}
use skysdk.SkyList.Front.{full, max_size, push_front, push_back}
use skysdk.SkyList.Addresses.{has-append}
use skysdk.SkyList.Linked.{Linked, Linked-ends, last, has-last}
use skysdk.SkyList.Link.{inserted, link_front_lem, link_back_lem}
use skysdk.SkyList.Insert.{first, inserted-IsList, inserted-contents}
use skysdk.SkyList.Rep.{IsList, contents}
use skysdk.SkyList.Take.{Taken, take_item_lem}

-- What an insertion comes to: the store as it was, when the list is full or when there is neither
-- a spare item nor memory; or a list with the contents `wanted`.
abbrev pub Pushed :
    Store → (qs : List Ptr) → (fresh : Ptr) → (wanted : List Ptr) → (Bool × Store) → Type 0
Pushed s qs fresh wanted (false, s') = (s' ≡ s) × ((full s ≡ true) ⊎ ((fresh ≡ null) × (qs ≡ [])))
Pushed s qs fresh wanted (true, s') =
    (full s ≡ false)
    × (max_size s' ≡ max_size s)
    × ((ps' : List Ptr) × (qs' : List Ptr) × IsList s' ps' qs' × (contents s' ps' ≡ wanted))

-- the item before a position is allocated
pub last_alive :
    (h : Heap) (a : Ptr) (ps : List Ptr) (b : Ptr)
    → Linked h a ps b
    → h.alive a ≡ true
    → h.alive (last a ps) ≡ true
last_alive h a [] b l aa = aa
last_alive h a (p ∷ ps) b (n, v, i, l) aa = last_alive h p ps b l i

pub first_lem :
    (h : Heap) (a : Ptr) (ps : List Ptr) (b : Ptr)
    → Linked h a ps b
    → (h.next a ≡ first b ps) × (h.prev (first b ps) ≡ a)
first_lem h a [] b l = l
first_lem h a (p ∷ ps) b (n, v, i, l) = (n, v)

pub first_alive :
    (h : Heap) (a : Ptr) (ps : List Ptr) (b : Ptr)
    → Linked h a ps b
    → h.alive b ≡ true
    → h.alive (first b ps) ≡ true
first_alive h a [] b l ab = ab
first_alive h a (p ∷ ps) b (n, v, i, l) ab = i

split_equal :
    (xs xs' ys ys' : List Ptr)
    → length xs ≡ length xs'
    → xs ++ ys ≡ xs' ++ ys'
    → (xs ≡ xs') × (ys ≡ ys')
split_equal [] [] ys ys' l e = (refl, e)
split_equal [] (x ∷ xs') ys ys' l e = absurd (omega (arith, l))
split_equal (x ∷ xs) [] ys ys' l e = absurd (omega (arith, l))
split_equal (x ∷ xs) (x' ∷ xs') ys ys' l e =
    let rest = split_equal xs xs' ys ys' (omega (arith, l)) cc in
    (let h : x ≡ x' = cc in rw (h, rest.0) refl, rest.1)

module _ (s : Store) (qs : List Ptr) (fresh v : Ptr) where
  pub not_full : ltb s.list.count s.list.max_size ≡ true → full s ≡ false
  unfolding full
  not_full lt = ground (arith, ltb→lt s.list.count s.list.max_size lt)

  pub at_limit :
      s.list.count ≤ s.list.max_size → ltb s.list.count s.list.max_size ≡ false → full s ≡ true
  unfolding full
  at_limit bound ge = ground (arith, lt→ltb s.list.count s.list.max_size)

  -- a detached item that goes between two parts of the list
  pub put_lem :
      (pre post : List Ptr) (x : Ptr) (s' : Store)
      → ltb s.list.count s.list.max_size ≡ true
      → Taken s (pre ++ post) x s'
      → Pushed s qs fresh
          (contents s pre ++ v ∷ contents s post)
          (true, inserted s' x v (last s'.list.head pre) (first s'.list.tail post))
  unfolding max_size
  put_lem pre post x s' lt (ne, same, limit, held, (qs', d)) =
      let room : s'.list.count < s'.list.max_size =
        omega (arith, ltb→lt s.list.count s.list.max_size lt) in
      let split : contents s' pre ++ contents s' post ≡ contents s pre ++ contents s post =
        sym (map-append s'.heap.item pre post) ∙ held ∙ map-append s.heap.item pre post in
      let (front_same, back_same) =
        split_equal (contents s' pre) (contents s pre) (contents s' post) (contents s post)
          (length-map {0, 0} s'.heap.item pre ∙ sym (length-map {0, 0} s.heap.item pre)) split in
      (
        not_full lt,
        limit,
        (
          pre ++ x ∷ post,
          qs',
          inserted-IsList s' pre post qs' x v d room,
          inserted-contents s' pre post qs' x v d ∙ rw (front_same, back_same) refl,
        ),
      )

module _ (s : Store) (ps qs : List Ptr) (fresh v : Ptr) (is : IsList s ps qs)
    (dead : s.heap.alive fresh ≡ false) where
  -- On a list in order, with `fresh` NULL or an address that is not in use, sky_list_push_front
  -- returns. If the list is full, or there is neither a spare item nor memory, it gives false and
  -- changes nothing. Otherwise it gives true, and the list is in order and holds the new element
  -- in front of the others.
  pub push_front_lem : Returns (Pushed s qs fresh (v ∷ contents s ps)) (push_front s fresh v)
  unfolding push_front
  push_front_lem = elim (Bool-cases (ltb s.list.count s.list.max_size)) [
    | inr ge ↦ rw ge (returns (refl, inl (at_limit s qs fresh v is.bounded ge)))
    | inl lt ↦ elim (take_item_lem s ps fresh qs is dead) [
      | inl (run, nothing, none_spare) ↦ rw (lt, run) (returns (refl, inr (nothing, none_spare)))
      | inr (x, s', run, taken) ↦
          let (ne, same, limit, held, (qs', d)) = taken in
          rw
            (
              lt,
              run,
              ne,
              link_front_lem s' x v (first s'.list.tail ps)
                  (first_lem s'.heap s'.list.head ps s'.list.tail d.rest.linked).0
                  (ground (arith, d.away)) d.live d.rest.head_alive
                  (first_alive s'.heap s'.list.head ps s'.list.tail d.rest.linked
                    d.rest.tail_alive),
            )
            (returns (put_lem s qs fresh v [] ps x s' lt taken))
    ]
  ]

  -- On a list in order, with `fresh` NULL or an address that is not in use, sky_list_push_back
  -- returns. If the list is full, or there is neither a spare item nor memory, it gives false and
  -- changes nothing. Otherwise it gives true, and the list is in order and holds the new element
  -- behind the others.
  pub push_back_lem : Returns (Pushed s qs fresh (contents s ps ++ v ∷ [])) (push_back s fresh v)
  unfolding push_back
  push_back_lem = elim (Bool-cases (ltb s.list.count s.list.max_size)) [
    | inr ge ↦ rw ge (returns (refl, inl (at_limit s qs fresh v is.bounded ge)))
    | inl lt ↦ elim (take_item_lem s ps fresh qs is dead) [
      | inl (run, nothing, none_spare) ↦ rw (lt, run) (returns (refl, inr (nothing, none_spare)))
      | inr (x, s', run, taken) ↦
          let (ne, same, limit, held, (qs', d)) = taken in
          let ends = Linked-ends s'.heap s'.list.head ps s'.list.tail d.rest.linked in
          rw
            (
              lt,
              run,
              ne,
              link_back_lem s' x v (last s'.list.head ps) ends.1
                  (has-last x s'.list.head ps (ground (arith, d.away, has-append x ps qs'))) d.live
                  d.rest.tail_alive
                  (last_alive s'.heap s'.list.head ps s'.list.tail d.rest.linked d.rest.head_alive),
            )
            (returns (
              put_lem s qs fresh v ps [] x s' lt
                (subst (λ z. Taken s z x s') (sym (append-nil ps)) taken)))
    ]
  ]
