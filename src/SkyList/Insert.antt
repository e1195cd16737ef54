-- ===== src/SkyList/Insert.antt =====
-- A new item between two items of a list (sky/src/sky_list.c).
use mathlib.Core.List.{append_assoc, append-nil, map-append}
use mathlib.Core.Path.{subst}
use skysdk.Base.{
  ◌<◌, ◌≡◌, refl, sym, ◌∙◌, ◌==◌, inl, inr, true, false, List, [], ◌∷◌, ◌++◌, length-append, arith,
  Bool-cases,
}
use skysdk.SkyList.{Ptr, Heap, Store, update}
use skysdk.SkyList.Addresses.{
  has, Uniq, has-append, has-middle, Uniq-put, Uniq-prefix, Uniq-cross_back, Uniq-suffix, has-ne,
  has-snoc,
}
use skysdk.SkyList.Linked.{
  Linked, Linked-frame, Linked-split, Linked-append, Linked-extend, last, has-last, spliced,
}
use skysdk.SkyList.Link.{inserted}
use skysdk.SkyList.Rep.{IsList, Detached, Spare-frame, map-agree, contents}

abbrev pub first : Ptr → List Ptr → Ptr
first b [] = b
first b (p ∷ ps) = p

last-has : (a : Ptr) (ps : List Ptr) → has (last a ps) (a ∷ ps) ≡ true
last-has a [] = ground arith
last-has a (p ∷ ps) = ground (arith, last-has p ps)

module _ (a b x : Ptr) (pre : List Ptr) (q : Ptr) (post : List Ptr)
    (u : Uniq (a ∷ b ∷ (pre ++ q ∷ post))) (away : has x (a ∷ b ∷ (pre ++ q ∷ post)) ≡ false) where
  -- what lies behind the new item is neither the new item nor the one before it
  pub behind_apart :
      (r : Ptr) → has r (q ∷ post) ≡ true → ((last a pre == r) ≡ false) × ((x == r) ≡ false)
  behind_apart r m =
      let there : has r (pre ++ q ∷ post) ≡ true = ground (arith, has-append r pre (q ∷ post)) in
      let a_ne : (a == r) ≡ false = has-ne a r (pre ++ q ∷ post) (ground arith) there in
      let out : has r (a ∷ pre) ≡ false = ground (arith, Uniq-cross_back pre (q ∷ post) r u.1.1) in
      (has-last r a pre out, has-ne x r (pre ++ q ∷ post) (ground arith) there)

  pub end_apart :
      (r : Ptr) → has r (post ++ b ∷ []) ≡ true → ((q == r) ≡ false) × ((x == r) ≡ false)
  end_apart r m =
      let own = Uniq-suffix pre (q ∷ post) u.1.1 in
      elim (Bool-cases (has r post)) [
        | inl inside ↦ (has-ne q r post own.0 inside, (behind_apart r (ground arith)).1)
        | inr outside ↦
            let e : (b == r) ≡ true = ground (arith, has-snoc r post b) in
            (ground (arith, has-append b pre (q ∷ post)), ground arith)
      ]

module _ (h : Heap) (a b x : Ptr) (pre : List Ptr) where
  -- the chain with `x` in its place
  pub spliced-Linked :
      (post : List Ptr)
      → Linked h a (pre ++ post) b
      → Uniq (a ∷ b ∷ (pre ++ post))
      → has x (a ∷ b ∷ (pre ++ post)) ≡ false
      → h.alive x ≡ true
      → Linked (spliced h x (last a pre) (first b post)) a (pre ++ x ∷ post) b
  spliced-Linked [] l u away ax =
      Linked-extend h a pre x b (subst (λ z. Linked h a z b) (append-nil pre) l)
        (ground (arith, has-append a pre []), Uniq-prefix pre [] u.1.1)
        (ground (arith, has-append x pre [])) (ground (arith, has-append b pre [])) ax
  spliced-Linked (q ∷ post) l u away ax =
      let (left, aq, right) = Linked-split h a pre q post b l in
      let g = spliced h x (last a pre) q in
      let fresh : has x (a ∷ pre) ≡ false = ground (arith, has-append x pre (q ∷ post)) in
      let before : Uniq (a ∷ pre) =
        (ground (arith, has-append a pre (q ∷ post)), Uniq-prefix pre (q ∷ post) u.1.1) in
      let behind : has q (x ∷ pre) ≡ false = ground (
        arith,
        (behind_apart a b x pre q post u away q (ground arith)).1,
        Uniq-cross_back pre (q ∷ post) q u.1.1,
      ) in
      let front = Linked-extend h a pre x q left before fresh behind ax in
      let back : Linked g q post b =
        Linked-frame h g q post b
          (record {
            nexts = λ r m. ground (arith, behind_apart a b x pre q post u away r m);
            prevs = λ r m. ground (arith, end_apart a b x pre q post u away r m);
            lives = λ r m. refl;
          })
          right in
      subst (λ z. Linked g a z b) (append_assoc pre (x ∷ []) (q ∷ post))
        (Linked-append g a (pre ++ x ∷ []) q post b front aq back)

module _ (s : Store) (pre post qs : List Ptr) (x v : Ptr) where
  private_u : IsList s (pre ++ post) qs → Uniq (s.list.head ∷ s.list.tail ∷ (pre ++ post))
  private_u is =
      let u = is.distinct in
      (
        ground (arith, has-append s.list.head (pre ++ post) qs),
        (
          ground (arith, has-append s.list.tail (pre ++ post) qs),
          Uniq-prefix (pre ++ post) qs u.1.1,
        ),
      )

  spare_apart :
      Detached s (pre ++ post) qs x
      → (q : Ptr) → has q qs ≡ true
      → ((last s.list.head pre == q) ≡ false) × ((x == q) ≡ false)
  spare_apart d q m =
      let u = d.rest.distinct in
      let there : has q ((pre ++ post) ++ qs) ≡ true =
        ground (arith, has-append q (pre ++ post) qs) in
      let out : has q (s.list.head ∷ pre) ≡ false = ground (
        arith,
        has-ne s.list.head q ((pre ++ post) ++ qs) (ground arith) there,
        has-append q pre post,
        Uniq-cross_back (pre ++ post) qs q u.1.1 m,
      ) in
      (
        has-last q s.list.head pre out,
        has-ne x q ((pre ++ post) ++ qs) (ground (arith, d.away)) there,
      )

  new_distinct :
      Detached s (pre ++ post) qs x → Uniq (s.list.head ∷ s.list.tail ∷ ((pre ++ x ∷ post) ++ qs))
  new_distinct d =
      let u = d.rest.distinct in
      let all = append_assoc pre post qs in
      let put : Uniq (pre ++ x ∷ (post ++ qs)) =
        Uniq-put pre x (post ++ qs)
          (subst (λ z. Uniq (x ∷ z)) all (ground (arith, d.away), u.1.1)) in
      subst (λ z. Uniq (s.list.head ∷ s.list.tail ∷ z)) (sym (append_assoc pre (x ∷ post) qs))
        (
          ground (
            arith,
            has-middle s.list.head pre x (post ++ qs),
            append_assoc pre post qs,
            d.away,
            has-append s.list.head pre (post ++ qs),
            has-append s.list.head (pre ++ post) qs,
            has-append s.list.head post qs,
            has-append s.list.head pre post,
          ),
          (
            ground (
              arith,
              has-middle s.list.tail pre x (post ++ qs),
              d.away,
              has-append s.list.tail pre (post ++ qs),
              has-append s.list.tail (pre ++ post) qs,
              has-append s.list.tail post qs,
              has-append s.list.tail pre post,
            ),
            put,
          ),
        )

  pub inserted-IsList :
      Detached s (pre ++ post) qs x
      → s.list.count < s.list.max_size
      → IsList (inserted s x v (last s.list.head pre) (first s.list.tail post)) (pre ++ x ∷ post) qs
  inserted-IsList d room =
      let tail_out : has s.list.tail (s.list.head ∷ pre) ≡ false = ground (
        arith,
        d.rest.distinct.0,
        d.rest.distinct.1.0,
        has-append s.list.tail (pre ++ post) qs,
        has-append s.list.tail pre post,
      ) in
      record {
        linked =
            spliced-Linked (record (s.heap) { item = update s.heap.item x v }) s.list.head
              s.list.tail x pre post d.rest.linked (private_u d.rest)
              (ground (arith, d.away, has-append x (pre ++ post) qs)) d.live;
        spare =
            Spare-frame s.heap (inserted s x v (last s.list.head pre) (first s.list.tail post)).heap
              s.list.prealloc qs (λ q m. (ground (arith, spare_apart d q m), refl)) d.rest.spare;
        distinct = new_distinct d;
        head_alive = d.rest.head_alive;
        tail_alive = d.rest.tail_alive;
        null_dead = d.rest.null_dead;
        tail_end =
            ground (arith, d.away, d.rest.tail_end, has-last s.list.tail s.list.head pre tail_out);
        counted =
            omega
              (arith, d.rest.counted, length-append {0} pre (x ∷ post), length-append {0} pre post);
        bounded = omega arith;
      }

  pub inserted-contents :
      Detached s (pre ++ post) qs x
      → contents (inserted s x v (last s.list.head pre) (first s.list.tail post)) (pre ++ x ∷ post)
        ≡ contents s pre ++ v ∷ contents s post
  inserted-contents d =
      let s' = inserted s x v (last s.list.head pre) (first s.list.tail post) in
      let other : (q : Ptr) → has q (pre ++ post) ≡ true → s'.heap.item q ≡ s.heap.item q = λ q m.
        ground (
          arith,
          has-ne x q (pre ++ post) (ground (arith, d.away, has-append x (pre ++ post) qs)) m,
        ) in
      let own : s'.heap.item x ≡ v = ground arith in
      let left =
        map-agree s.heap.item s'.heap.item pre
          (λ q m. other q (ground (arith, has-append q pre post))) in
      let right =
        map-agree s.heap.item s'.heap.item post
          (λ q m. other q (ground (arith, has-append q pre post))) in
      map-append s'.heap.item pre (x ∷ post) ∙ rw (left, own, right) refl
