-- ===== src/SkyList/Reads.antt =====
-- sky_list_create, sky_list_get_at and sky_list_contain (sky/src/sky_list.c).
use skysdk.Base.{
  Bool, ℕ, zero, suc, ◌≤◌, ◌<◌, ◌≡◌, refl, ap, ◌∙◌, ◌==◌, not, ◌&&◌, ltb, ltb→lt, lt→ltb, true,
  false, Option, none, some, inl, inr, List, [], ◌∷◌, map, length, length-map, drop, get_elem?,
  if◌then◌else◌, arith, Bool-cases, ok,
}
use skysdk.SkyList.{Ptr, null, update, Heap, Store, get_item, get_next}
use skysdk.SkyList.Front.{create}
use skysdk.SkyList.Scan.{find_if, contain, get_at}
use skysdk.SkyList.Addresses.{has, has-append}
use skysdk.SkyList.Linked.{Linked}
use skysdk.SkyList.Insert.{first}
use skysdk.SkyList.Push.{first_lem}
use skysdk.SkyList.At.{walk_lem}
use skysdk.SkyList.Rep.{IsList, contents}
use skysdk.SkyList.Pop.{take_first, data_of}
use skysdk.SkyList.Find.{find_if_lem}

-- With a positive size, with memory for the struct, and with sentinels that differ from each other
-- and from NULL, sky_list_create gives a list in order that is empty, has no spare items, has the
-- size as its limit, and has allocated the sentinels.
pub create_lem :
    (h : Heap) (size fresh head tail : Ptr)
    → 0 < size
    → (fresh == null) ≡ false
    → h.alive null ≡ false
    → (head == tail) ≡ false
    → (head == null) ≡ false
    → (tail == null) ≡ false
    → (s : Store) × (create h size fresh head tail ≡ some s)
      × IsList s [] []
      × (s.list.max_size ≡ size)
      × (s.list.head ≡ head)
      × (s.list.tail ≡ tail)
      × (s.heap.alive ≡ update (update h.alive head true) tail true)
unfolding create
create_lem h size fresh head tail positive ne dead apart head_ne tail_ne =
    let e : ltb 0 size ≡ true = lt→ltb 0 size positive in
    rw (e, ne)
      (
        _,
        refl,
        record {
          linked = (ground arith, ground arith);
          spare = refl;
          distinct = (ground arith, (refl, tt));
          head_alive = ground arith;
          tail_alive = ground arith;
          null_dead = ground arith;
          tail_end = ground arith;
          counted = refl;
          bounded = omega arith;
        },
        refl,
        refl,
        refl,
        refl,
      )

data_of-keep :
    (w : Ptr) (o : Option (Ptr × List Ptr))
    → data_of (elim o [ none ↦ none | some r ↦ some (r.0, w ∷ r.1) ]) ≡ data_of o
data_of-keep w none = refl
data_of-keep w (some r) = refl

found_lem :
    (v : Ptr) (vs : List Ptr)
    → data_of (take_first (λ item. item == v) vs) ≡ (if has v vs then v else null)
found_lem v [] = refl
found_lem v (w ∷ vs) = elim (Bool-cases (w == v)) [
  | inl hit ↦ rw hit (ground arith)
  | inr miss ↦ rw miss (data_of-keep w (take_first (λ item. item == v) vs) ∙ found_lem v vs)
]

-- On a list in order sky_list_contain returns whether the pointer is an element and is not NULL.
contain_lem :
    (s : Store) (ps qs : List Ptr) (v : Ptr)
    → IsList s ps qs
    → contain s v ≡ ok (not (v == null) && has v (contents s ps))
unfolding contain
contain_lem s ps qs v is =
    rw (find_if_lem s ps qs (λ item. item == v) is, found_lem v (contents s ps))
      (ap ok (ground arith))

-- where a walk of a list ends, and what is read there
position :
    (h : Heap) (b : Ptr) (ps : List Ptr) (n : ℕ)
    → n < length ps
    → (a : Ptr) → Linked h a ps b
    → (h.alive (first b (drop n ps)) ≡ true)
      × (get_elem? (map h.item ps) n ≡ some (h.item (first b (drop n ps))))
      × (has (first b (drop n ps)) ps ≡ true)
position h b [] n lt a l = absurd (omega arith)
position h b (p ∷ ps) zero lt a (n, v, i, l) = (i, refl, ground arith)
position h b (p ∷ ps) (suc n) lt a (m, v, i, l) =
    (let (live, there, own) = position h b ps n (omega arith) p l in (live, there, ground arith))

outside : (index n : ℕ) → ltb index n ≡ false → n ≤ index
outside index n out = ground (arith, lt→ltb index n)

beyond : (vs : List Ptr) (n : ℕ) → length vs ≤ n → get_elem? vs n ≡ none
beyond [] n le = refl
beyond (v ∷ vs) zero le = absurd (omega arith)
beyond (v ∷ vs) (suc n) le = beyond vs n (omega arith)

-- On a list in order sky_list_get_at returns the element at the position, or NULL behind the end.
get_at_lem :
    (s : Store) (ps qs : List Ptr) (index : ℕ)
    → IsList s ps qs
    → get_at s index ≡ ok (elim (get_elem? (contents s ps) index) [ none ↦ null | some v ↦ v ])
unfolding get_at get_next get_item
get_at_lem s ps qs index is =
    let size = length-map {0, 0} s.heap.item ps in
    elim (Bool-cases (ltb index s.list.count)) [
      | inr out ↦
          let gone =
            beyond (contents s ps) index
              (omega (arith, is.counted, size, outside index s.list.count out)) in
          rw gone (elim (Bool-cases (ltb 0 s.list.count)) [
            | inl pos ↦ rw (pos, out) refl
            | inr none_left ↦ rw none_left refl
          ])
      | inl inside ↦
          let lt = ltb→lt index s.list.count inside in
          let pos : ltb 0 s.list.count ≡ true = lt→ltb 0 s.list.count (omega arith) in
          let (live, there, own) =
            position s.heap s.list.tail ps index (omega (arith, is.counted)) s.list.head
              is.linked in
          let (r, walked, at) =
            walk_lem s.heap s.list.tail is.tail_end is.tail_alive is.null_dead s.list.head ps index
              is.linked in
          let at_null : (r == null) ≡ false =
            ground (arith, is.distinct.1.0, has-append s.list.tail ps qs) in
          let here : r ≡ first s.list.tail (drop index ps) = ground arith in
          rw
            (
              pos,
              inside,
              is.head_alive,
              (first_lem s.heap s.list.head ps s.list.tail is.linked).0,
              walked,
              at_null,
              here,
              live,
              there,
            )
            refl
    ]

-- On a list in order sky_list_find_if returns the first element that passes, or NULL if none does;
-- sky_list_contain whether the pointer is an element and is not NULL; and sky_list_get_at the
-- element at the position, or NULL behind the end.
pub query_lem :
    (s : Store) (ps qs : List Ptr) (test : Ptr → Bool) (v : Ptr) (index : ℕ)
    → IsList s ps qs
    → (find_if s test ≡ ok (data_of (take_first test (contents s ps))))
      × (contain s v ≡ ok (not (v == null) && has v (contents s ps)))
      × (get_at s index ≡ ok (elim (get_elem? (contents s ps) index) [ none ↦ null | some v ↦ v ]))
query_lem s ps qs test v index is =
    (find_if_lem s ps qs test is, contain_lem s ps qs v is, get_at_lem s ps qs index is)
