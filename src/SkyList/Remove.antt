-- ===== src/SkyList/Remove.antt =====
-- An item taken out of a list and put among the spare ones (sky/src/sky_list.c).
use mathlib.Core.List.{append_assoc, append-nil, map-append}
use mathlib.Core.Path.{subst}
use skysdk.Base.{
  suc, ◌+◌, ◌≡◌, refl, sym, ◌∙◌, ◌==◌, true, false, List, [], ◌∷◌, ◌++◌, length, length-append,
  arith,
}
use skysdk.SkyList.{Ptr, Heap, Store, update, decrement}
use skysdk.SkyList.Addresses.{
  has, Uniq, has-append, has-middle, Uniq-put, Uniq-take, Uniq-prefix, Uniq-cross_back, Uniq-suffix,
  has-ne,
}
use skysdk.SkyList.Linked.{
  Linked, Linked-frame, Linked-split, Linked-append, Linked-redirect, last, has-last, joined,
}
use skysdk.SkyList.Insert.{first, behind_apart, end_apart}
use skysdk.SkyList.Rep.{Spare, IsList, Spare-frame, contents}

-- the heap with `before` and `behind` joined, and the next pointer of the item between them set
abbrev pub unspliced : Heap → (x n before behind : Ptr) → Heap
unspliced h x n u w = record h { next = update (update h.next u w) x n; prev = update h.prev w u }

-- the store after `x` has gone from between `u` and `w` to the spare items
abbrev pub removed : Store → (x u w : Ptr) → Store
removed s x u w = record {
  list = record (s.list) { count = decrement s.list.count; prealloc = x };
  heap = unspliced s.heap x s.list.prealloc u w;
}

module _ (h : Heap) (a b x : Ptr) (pre : List Ptr) where
  joined-Linked :
      (post : List Ptr)
      → Linked h a (pre ++ x ∷ post) b
      → Uniq (a ∷ b ∷ (pre ++ post))
      → has x (a ∷ b ∷ (pre ++ post)) ≡ false
      → Linked (joined h (last a pre) (first b post)) a (pre ++ post) b
  joined-Linked [] l u away =
      let (left, ax, right) = Linked-split h a pre x [] b l in
      subst (λ z. Linked (joined h (last a pre) b) a z b) (sym (append-nil pre))
        (Linked-redirect h a pre x b left
          (ground (arith, has-append a pre []), Uniq-prefix pre [] u.1.1)
          (ground (arith, has-append b pre [])))
  joined-Linked (q ∷ post) l u away =
      let (left, ax, right) = Linked-split h a pre x (q ∷ post) b l in
      let g = joined h (last a pre) q in
      let before : Uniq (a ∷ pre) =
        (ground (arith, has-append a pre (q ∷ post)), Uniq-prefix pre (q ∷ post) u.1.1) in
      let front =
        Linked-redirect h a pre x q left before
          (Uniq-cross_back pre (q ∷ post) q u.1.1 (ground arith)) in
      let back : Linked g q post b =
        Linked-frame h g q post b
          (record {
            nexts = λ r m. ground (arith, behind_apart a b x pre q post u away r m);
            prevs = λ r m. ground (arith, end_apart a b x pre q post u away r m);
            lives = λ r m. refl;
          })
          right.3 in
      Linked-append g a pre q post b front right.2 back

  pub unspliced-Linked :
      (post : List Ptr) (n : Ptr)
      → Linked h a (pre ++ x ∷ post) b
      → Uniq (a ∷ b ∷ (pre ++ post))
      → has x (a ∷ b ∷ (pre ++ post)) ≡ false
      → Linked (unspliced h x n (last a pre) (first b post)) a (pre ++ post) b
  unspliced-Linked post n l u away =
      let g = joined h (last a pre) (first b post) in
      Linked-frame g (unspliced h x n (last a pre) (first b post)) a (pre ++ post) b
        (record {
          nexts = λ r m. ground (arith, has-ne x r (a ∷ (pre ++ post)) (ground arith) m);
          prevs = λ r m. refl;
          lives = λ r m. refl;
        })
        (joined-Linked post l u away)

module _ (s : Store) (pre post qs : List Ptr) (x : Ptr) (is : IsList s (pre ++ x ∷ post) qs) where
  -- where everything is once `x` is spare
  pub spare_distinct : Uniq (s.list.head ∷ s.list.tail ∷ ((pre ++ post) ++ x ∷ qs))
  spare_distinct =
      let u = is.distinct in
      let e : (pre ++ x ∷ post) ++ qs ≡ pre ++ x ∷ (post ++ qs) = append_assoc pre (x ∷ post) qs in
      let all : Uniq (s.list.head ∷ s.list.tail ∷ (pre ++ x ∷ (post ++ qs))) =
        subst (λ z. Uniq (s.list.head ∷ s.list.tail ∷ z)) e u in
      let front = Uniq-take pre x (post ++ qs) all.1.1 in
      let back : Uniq ((pre ++ post) ++ x ∷ qs) =
        Uniq-put (pre ++ post) x qs
          (subst (λ z. Uniq (x ∷ z)) (sym (append_assoc pre post qs)) front) in
      let moved : (r : Ptr) → has r ((pre ++ post) ++ x ∷ qs) ≡ has r (pre ++ x ∷ (post ++ qs)) =
        λ r. ground (
          arith,
          has-middle r (pre ++ post) x qs,
          has-middle r pre x (post ++ qs),
          has-append r (pre ++ post) qs,
          has-append r pre post,
          has-append r pre (post ++ qs),
          has-append r post qs,
        ) in
      (ground (arith, moved s.list.head, all.0), (moved s.list.tail ∙ all.1.0, back))

  pub removed_away : has x (s.list.head ∷ s.list.tail ∷ (pre ++ post)) ≡ false
  removed_away =
      let u = spare_distinct in
      let own = Uniq-cross_back (pre ++ post) (x ∷ qs) x u.1.1 (ground arith) in
      ground (
        arith,
        own,
        u.0,
        u.1.0,
        has-append s.list.head (pre ++ post) (x ∷ qs),
        has-append s.list.tail (pre ++ post) (x ∷ qs),
      )

  removed_rest : Uniq (s.list.head ∷ s.list.tail ∷ (pre ++ post))
  removed_rest =
      let u = spare_distinct in
      (
        ground (arith, u.0, has-append s.list.head (pre ++ post) (x ∷ qs)),
        (
          ground (arith, u.1.0, has-append s.list.tail (pre ++ post) (x ∷ qs)),
          Uniq-prefix (pre ++ post) (x ∷ qs) u.1.1,
        ),
      )

  spare_same :
      (q : Ptr) → has q qs ≡ true → ((last s.list.head pre == q) ≡ false) × ((x == q) ≡ false)
  spare_same q m =
      let u = spare_distinct in
      let there : has q ((pre ++ post) ++ x ∷ qs) ≡ true =
        ground (arith, has-append q (pre ++ post) (x ∷ qs)) in
      let out : has q (s.list.head ∷ pre) ≡ false = ground (
        arith,
        has-ne s.list.head q ((pre ++ post) ++ x ∷ qs) (ground arith) there,
        has-append q pre post,
        Uniq-cross_back (pre ++ post) (x ∷ qs) q u.1.1 (ground arith),
      ) in
      (has-last q s.list.head pre out, has-ne x q qs (Uniq-suffix (pre ++ post) (x ∷ qs) u.1.1).0 m)

  pub removed-IsList :
      IsList (removed s x (last s.list.head pre) (first s.list.tail post)) (pre ++ post) (x ∷ qs)
  unfolding decrement
  removed-IsList =
      let s' = removed s x (last s.list.head pre) (first s.list.tail post) in
      let cut = Linked-split s.heap s.list.head pre x post s.list.tail is.linked in
      let many : s.list.count ≡ suc (length pre + length post) =
        omega (arith, is.counted, length-append {0} pre (x ∷ post)) in
      let some_left : (s.list.count == 0) ≡ false = ground (arith, many) in
      let at_x : s'.heap.next x ≡ s.list.prealloc = ground arith in
      let old : Spare s'.heap s.list.prealloc qs =
        Spare-frame s.heap s'.heap s.list.prealloc qs
          (λ q m. (ground (arith, spare_same q m), refl)) is.spare in
      let u = spare_distinct in
      let tail_out : has s.list.tail (s.list.head ∷ pre) ≡ false =
        ground (arith, removed_rest, has-append s.list.tail pre post) in
      record {
        linked =
            unspliced-Linked s.heap s.list.head s.list.tail x pre post s.list.prealloc is.linked
              removed_rest removed_away;
        spare = (refl, cut.1, subst (λ p. Spare s'.heap p qs) (sym at_x) old);
        distinct = u;
        head_alive = is.head_alive;
        tail_alive = is.tail_alive;
        null_dead = is.null_dead;
        tail_end =
            ground
              (arith, is.tail_end, removed_away, has-last s.list.tail s.list.head pre tail_out);
        counted = rw some_left (omega (arith, many, length-append {0} pre post));
        bounded = rw some_left (omega (arith, is.bounded));
      }

  pub removed-contents :
      contents (removed s x (last s.list.head pre) (first s.list.tail post)) (pre ++ post)
      ≡ contents s pre ++ contents s post
  removed-contents = map-append s.heap.item pre post
