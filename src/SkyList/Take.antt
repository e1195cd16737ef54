-- ===== src/SkyList/Take.antt =====
-- The item that an insertion of sky/src/sky_list.c works on: a spare one, or a new one.
use skysdk.Base.{
  ◌≡◌, refl, ap, ◌==◌, ◌⊎◌, inl, inr, true, false, List, [], ◌∷◌, ◌++◌, arith, Bool-cases, ok,
}
use skysdk.SkyList.{Ptr, null, Store, update, get_next, alloc_item}
use skysdk.SkyList.Front.{take_item}
use skysdk.SkyList.Addresses.{has, has-append, has-ne, has-middle, has-snoc, Uniq-take}
use skysdk.SkyList.Linked.{Linked-frame}
use skysdk.SkyList.Rep.{IsList, Detached, contents, dead-away, map-agree}

-- an item was found: it is detached, and the list holds what it held
abbrev pub Taken : Store → List Ptr → Ptr → Store → Type 0
Taken s ps x s' =
    ((x == null) ≡ false)
    × (s'.list.count ≡ s.list.count)
    × (s'.list.max_size ≡ s.list.max_size)
    × (contents s' ps ≡ contents s ps)
    × ((qs : List Ptr) × Detached s' ps qs x)

module _ (s : Store) (ps : List Ptr) where
  fresh-Taken :
      (x : Ptr)
      → IsList s ps []
      → s.heap.alive x ≡ false
      → (x == null) ≡ false
      → Taken s ps x (record s { heap = alloc_item s.heap x })
  unfolding alloc_item
  fresh-Taken x is dead ne =
      let away = dead-away s ps [] x is dead in
      let out : has x (s.list.head ∷ s.list.tail ∷ ps) ≡ false =
        ground (arith, has-append x ps [], away) in
      let s' : Store = record s {
        heap = record {
          alive = update s.heap.alive x true;
          item = update s.heap.item x null;
          next = update s.heap.next x null;
          prev = update s.heap.prev x null;
        };
      } in
      rw ne (
        refl,
        refl,
        refl,
        map-agree s.heap.item s'.heap.item ps
            (λ q m. ground (arith, has-ne x q ps (ground arith) m)),
        (
          [],
          record {
            rest = record {
              linked =
                  Linked-frame s.heap s'.heap s.list.head ps s.list.tail
                    (record {
                      nexts = λ q m. ground (arith, has-ne x q (s.list.head ∷ ps) (ground arith) m);
                      prevs = λ q m. ground (
                        arith,
                        has-ne x q (ps ++ s.list.tail ∷ [])
                            (ground (arith, has-snoc x ps s.list.tail)) m,
                      );
                      lives = λ q m. ground (arith, has-ne x q ps (ground arith) m);
                    })
                    is.linked;
              spare = is.spare;
              distinct = is.distinct;
              head_alive = ground (arith, is.head_alive);
              tail_alive = ground (arith, is.tail_alive);
              null_dead = ground (arith, is.null_dead);
              tail_end = ground (arith, is.tail_end);
              counted = is.counted;
              bounded = is.bounded;
            };
            live = ground arith;
            away = away;
          },
        ),
      )

  spare-Taken :
      (q : Ptr) (qs : List Ptr)
      → IsList s ps (q ∷ qs)
      → Taken s ps q (record s { list = record (s.list) { prealloc = s.heap.next q } })
  spare-Taken q qs is =
      let u = is.distinct in
      let taken = Uniq-take ps q qs u.1.1 in
      (
        ground (arith, is.null_dead, (is.spare.1)),
        refl,
        refl,
        refl,
        (
          qs,
          record {
            rest = record {
              linked = is.linked;
              spare = is.spare.2;
              distinct = (
                ground (arith, has-middle s.list.head ps q qs),
                (ground (arith, has-middle s.list.tail ps q qs), taken.1),
              );
              head_alive = is.head_alive;
              tail_alive = is.tail_alive;
              null_dead = is.null_dead;
              tail_end = is.tail_end;
              counted = is.counted;
              bounded = is.bounded;
            };
            live = (is.spare.1);
            away =
                ground
                  (arith, has-middle s.list.head ps q qs, has-middle s.list.tail ps q qs, taken.0);
          },
        ),
      )

  pub take_item_lem :
      (fresh : Ptr) (qs : List Ptr)
      → IsList s ps qs
      → s.heap.alive fresh ≡ false
      → ((take_item s fresh ≡ ok (null, s)) × (fresh ≡ null) × (qs ≡ []))
        ⊎ ((x : Ptr) × (s' : Store) × (take_item s fresh ≡ ok (x, s')) × Taken s ps x s')
  unfolding take_item alloc_item get_next
  take_item_lem fresh [] is dead =
      let e : (s.list.prealloc == null) ≡ true = ground (arith, is.spare) in
      elim (Bool-cases (fresh == null)) [
        | inl z ↦ inl (rw (e, z) (ap (λ p. ok (p, s)) (ground arith)), ground arith, refl)
        | inr n ↦ inr (
          fresh,
          record s { heap = alloc_item s.heap fresh },
          rw e refl,
          fresh-Taken fresh is dead n,
        )
      ]
  take_item_lem fresh (q ∷ qs) is dead =
      let p : s.list.prealloc ≡ q = is.spare.0 in
      let n : (q == null) ≡ false = (spare-Taken q qs is).0 in
      inr (
        q,
        record s { list = record (s.list) { prealloc = s.heap.next q } },
        rw (p, n, (is.spare.1)) refl,
        spare-Taken q qs is,
      )
