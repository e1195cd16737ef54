-- ===== src/SkyList/Destroy.antt =====
-- sky_list_destroy (sky/src/sky_list.c).
use mathlib.Core.Path.{subst}
use skysdk.Base.{
  ℕ, zero, suc, ◌+◌, ◌<◌, ◌≡◌, refl, ap, sym, ◌∙◌, ◌==◌, true, false, List, [], ◌∷◌, ◌++◌, length,
  if◌then◌else◌, arith, Returns, returns, result, mono,
}
use skysdk.SkyList.{Ptr, null, Heap, Store, update, decrement, get_next, set_next, free_item}
use skysdk.SkyList.Scan.{destroy, free_list, free_spare}
use skysdk.SkyList.Addresses.{has, Uniq, has-append, has-ne}
use skysdk.SkyList.Rep.{Spare, IsList, Spare-frame}
use skysdk.SkyList.Clear.{Forward-move, Linked-Forward, Loose}

-- exactly the addresses `ps` have gone
abbrev pub Gone : Heap → List Ptr → Heap → Type 0
Gone h ps h' = (q : Ptr) → h'.alive q ≡ (if has q ps then false else h.alive q)

-- one round of the loop over the list
abbrev dropped : Store → Ptr → Store
dropped s p = record {
  list = record (s.list) { count = decrement s.list.count };
  heap = record (s.heap) {
    alive = update s.heap.alive p false;
    next = update s.heap.next s.list.head (s.heap.next p);
  };
}

dropped-Loose :
    (s : Store) (p : Ptr) (ps qs : List Ptr) → Loose s (p ∷ ps) qs → Loose (dropped s p) ps qs
unfolding decrement
dropped-Loose s p ps qs l =
    let u = l.distinct in
    let s' = dropped s p in
    let positive : (s.list.count == 0) ≡ false = ground (arith, l.counted) in
    let other : (q : Ptr)
        → has q (ps ++ qs) ≡ true
        → (s'.heap.next q ≡ s.heap.next q) × (s'.heap.alive q ≡ s.heap.alive q) =
      λ q m. (
        ground (arith, has-ne s.list.head q (ps ++ qs) (ground arith) m),
        ground (arith, has-ne p q (ps ++ qs) u.1.1.0 m),
      ) in
    record {
      forward =
          Forward-move s.heap s'.heap p s.list.head ps s.list.tail (ground arith)
            (λ q m. other q (ground (arith, has-append q ps qs))) l.forward.2;
      spare =
          Spare-frame s.heap s'.heap s.list.prealloc qs
            (λ q m. other q (ground (arith, has-append q ps qs))) l.spare;
      distinct = (ground (arith, u.0), (ground (arith, u.1.0), u.1.1.1));
      head_alive = ground (arith, l.head_alive);
      tail_alive = ground (arith, l.tail_alive);
      null_dead = ground (arith, l.null_dead);
      tail_end = ground (arith, l.tail_end);
      counted = rw positive (omega (arith, l.counted));
    }

free_list_step :
    (s : Store) (p : Ptr) (n : ℕ)
    → s.heap.alive s.list.head ≡ true
    → s.heap.next s.list.head ≡ p
    → (p == s.list.tail) ≡ false
    → s.heap.alive p ≡ true
    → free_list (suc n) s ≡ free_list n (dropped s p)
unfolding free_list get_next set_next free_item
free_list_step s p n ha hn e ap = simp (ha, hn, e, ap)

-- what the loop over the list leaves
record Listless (s : Store) (ps qs : List Ptr) (s' : Store) : Type 0 where
  loose : Loose s' [] qs
  gone : Gone s.heap ps s'.heap
  same_head : s'.list.head ≡ s.list.head
  same_tail : s'.list.tail ≡ s.list.tail

free_list_lem :
    (s : Store) (ps qs : List Ptr)
    → Loose s ps qs
    → Returns (Listless s ps qs) (free_list (suc (length ps)) s)
unfolding free_list get_next
free_list_lem s [] qs l =
    let e : (s.heap.next s.list.head == s.list.tail) ≡ true = ground (arith, l.forward) in
    rw (l.head_alive, e)
      (returns (record { loose = l; gone = λ q. refl; same_head = refl; same_tail = refl }))
free_list_lem s (p ∷ ps) qs l =
    let e : (p == s.list.tail) ≡ false = ground (arith, l.distinct) in
    let step = free_list_step s p (suc (length ps)) l.head_alive l.forward.0 e l.forward.1 in
    rw (step, free_list)
      (mono (free_list_lem (dropped s p) ps qs (dropped-Loose s p ps qs l)) (λ s' done. record {
        loose = done.loose;
        gone = λ q. ground (arith, done.gone q);
        same_head = done.same_head;
        same_tail = done.same_tail;
      }))

free_spare_lem :
    (qs : List Ptr) (fuel : ℕ) (h : Heap) (p : Ptr)
    → length qs < fuel
    → Spare h p qs
    → Uniq qs
    → h.alive null ≡ false
    → Returns (Gone h qs) (free_spare fuel h p)
unfolding free_spare get_next free_item
free_spare_lem qs zero h p enough l u dead = absurd (omega arith)
free_spare_lem [] (suc fuel) h p enough l u dead =
    let e : (p == null) ≡ true = ground arith in rw e (returns (λ q. refl))
free_spare_lem (r ∷ qs) (suc fuel) h p enough (e, i, l) u dead =
    let n : (p == null) ≡ false = ground arith in
    let live : h.alive p ≡ true = ap h.alive e ∙ i in
    let h' : Heap = record h { alive = update h.alive p false } in
    let rest =
      free_spare_lem qs fuel h' (h.next p) (omega arith)
        (Spare-frame h h' (h.next p) qs (λ q m. (refl, ground (arith, has-ne r q qs u.0 m)))
          (subst (λ z. Spare h (h.next z) qs) (sym e) l))
        u.1 (ground arith) in
    rw (n, live) (mono rest (λ g gone q. ground (arith, gone q)))

-- On a list in order, with more rounds of fuel than there are spare items, sky_list_destroy
-- returns: no free fails, and the sentinels, the items and the spare items are freed, and nothing
-- else.
pub list_destroy_lem :
    (s : Store) (ps qs : List Ptr) (fuel : ℕ)
    → IsList s ps qs
    → length qs < fuel
    → Returns (Gone s.heap (s.list.head ∷ s.list.tail ∷ (ps ++ qs))) (destroy fuel s)
unfolding destroy
list_destroy_lem s ps qs fuel is enough =
    let start : Loose s ps qs = record {
      forward = Linked-Forward s.heap s.list.head ps s.list.tail is.linked;
      spare = is.spare;
      distinct = is.distinct;
      head_alive = is.head_alive;
      tail_alive = is.tail_alive;
      null_dead = is.null_dead;
      tail_end = is.tail_end;
      counted = is.counted;
    } in
    let rounds : s.list.count + 1 ≡ suc (length ps) = omega (arith, is.counted) in
    let (s', run, done) = result (free_list_lem s ps qs start) in
    let (h, freed, gone) = result (
      free_spare_lem qs fuel s'.heap s'.list.prealloc enough done.loose.spare
        done.loose.distinct.1.1 done.loose.null_dead) in
    rw (rounds, run, freed)
      (returns (λ q.
        ground (arith, done.same_head, done.same_tail, gone q, done.gone q, has-append q ps qs)))
