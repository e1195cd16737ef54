-- ===== src/SkyList/Link.antt =====
-- What the pointer assignments of an insertion in sky/src/sky_list.c come to.
use skysdk.Base.{◌+◌, ◌≡◌, ◌==◌, true, false, ok, arith}
use skysdk.SkyList.{Ptr, Store, update, get_next, get_prev, set_item, set_next, set_prev}
use skysdk.SkyList.Front.{hook, link_front, link_back}
use skysdk.SkyList.Scan.{link_before}
use skysdk.SkyList.Linked.{spliced}

-- the store after `x` with the data `v` has been put between `u` and `w`
abbrev pub inserted : Store → (x v u w : Ptr) → Store
inserted s x v u w = record {
  list = record (s.list) { count = s.list.count + 1 };
  heap = spliced (record (s.heap) { item = update s.heap.item x v }) x u w;
}

pub ==-refl : (p : Ptr) → (p == p) ≡ true
==-refl p = ground arith

module _ (s : Store) (x v w : Ptr) where
  pub link_front_lem :
      s.heap.next s.list.head ≡ w
      → (s.list.head == x) ≡ false
      → s.heap.alive x ≡ true
      → s.heap.alive s.list.head ≡ true
      → s.heap.alive w ≡ true
      → link_front s x v ≡ ok (true, inserted s x v s.list.head w)
  unfolding link_front get_next set_item set_next set_prev hook get_prev
  link_front_lem nu ux ax au aw = simp (ax, au, nu, ==-refl, ux, aw)

  pub link_back_lem :
      s.heap.prev s.list.tail ≡ w
      → (w == x) ≡ false
      → s.heap.alive x ≡ true
      → s.heap.alive s.list.tail ≡ true
      → s.heap.alive w ≡ true
      → link_back s x v ≡ ok (true, inserted s x v w s.list.tail)
  unfolding link_back get_next set_item set_next set_prev hook get_prev
  link_back_lem pw wx ax at aw = simp (ax, at, pw, ==-refl, wx, aw)

  pub link_before_lem :
      (itor : Ptr)
      → s.heap.prev itor ≡ w
      → (w == x) ≡ false
      → s.heap.alive x ≡ true
      → s.heap.alive itor ≡ true
      → s.heap.alive w ≡ true
      → link_before s x v itor ≡ ok (true, inserted s x v w itor)
  unfolding link_before get_next set_item set_next set_prev hook get_prev
  link_before_lem itor pw wx ax ai aw = simp (ax, ai, pw, ==-refl, wx, aw)
