-- ===== src/SkyList/Clear.antt =====
-- sky_list_clear (sky/src/sky_list.c).
use mathlib.Core.Path.{subst}
use skysdk.Base.{
  ℕ, suc, ◌+◌, ◌≡◌, refl, ap, sym, ◌∙◌, ◌==◌, true, false, List, [], ◌∷◌, ◌++◌, length, arith,
  Returns, returns, result,
}
use skysdk.SkyList.{Ptr, null, Heap, Store, update, decrement, get_next, set_next, set_prev}
use skysdk.SkyList.Front.{max_size}
use skysdk.SkyList.Scan.{clear, clear_loop}
use skysdk.SkyList.Addresses.{has, Uniq, has-append, has-middle, Uniq-put, has-ne}
use skysdk.SkyList.Linked.{Linked}
use skysdk.SkyList.Rep.{Spare, IsList, Spare-frame}

-- the chain by its next pointers alone
abbrev pub Forward : Heap → Ptr → List Ptr → Ptr → Type 0
Forward h a [] b = h.next a ≡ b
Forward h a (p ∷ ps) b = (h.next a ≡ p) × (h.alive p ≡ true) × Forward h p ps b

pub Linked-Forward :
    (h : Heap) (a : Ptr) (ps : List Ptr) (b : Ptr) → Linked h a ps b → Forward h a ps b
Linked-Forward h a [] b l = l.0
Linked-Forward h a (p ∷ ps) b (n, v, i, l) = (n, i, Linked-Forward h p ps b l)

-- the chain from another item, on a heap that agrees on the rest
pub Forward-move :
    (h g : Heap) (a c : Ptr) (ps : List Ptr) (b : Ptr)
    → g.next c ≡ h.next a
    → ((q : Ptr) → has q ps ≡ true → (g.next q ≡ h.next q) × (g.alive q ≡ h.alive q))
    → Forward h a ps b
    → Forward g c ps b
Forward-move h g a c [] b e same l = e ∙ l
Forward-move h g a c (p ∷ ps) b e same (n, i, l) =
    let here = same p (ground arith) in
    (e ∙ n, here.1 ∙ i, Forward-move h g p p ps b here.0 (λ q m. same q (ground arith)) l)

-- a list in the middle of sky_list_clear, whose prev pointers are not kept
pub record Loose (s : Store) (ps qs : List Ptr) : Type 0 where
  pub forward : Forward s.heap s.list.head ps s.list.tail
  pub spare : Spare s.heap s.list.prealloc qs
  pub distinct : Uniq (s.list.head ∷ s.list.tail ∷ (ps ++ qs))
  pub head_alive : s.heap.alive s.list.head ≡ true
  pub tail_alive : s.heap.alive s.list.tail ≡ true
  pub null_dead : s.heap.alive null ≡ false
  pub tail_end : s.heap.next s.list.tail ≡ null
  pub counted : s.list.count ≡ length ps

-- one round of the loop
abbrev freed : Store → Ptr → Store
freed s p = record {
  list = record (s.list) { prealloc = p; count = decrement s.list.count };
  heap = record (s.heap) {
    next = update (update s.heap.next p s.list.prealloc) s.list.head (s.heap.next p);
  };
}

freed-Loose :
    (s : Store) (p : Ptr) (ps qs : List Ptr) → Loose s (p ∷ ps) qs → Loose (freed s p) ps (p ∷ qs)
unfolding decrement
freed-Loose s p ps qs l =
    let u = l.distinct in
    let s' = freed s p in
    let head_p : (s.list.head == p) ≡ false = ground arith in
    let positive : (s.list.count == 0) ≡ false = ground (arith, l.counted) in
    let other : (q : Ptr) → has q (ps ++ qs) ≡ true → s'.heap.next q ≡ s.heap.next q = λ q m.
      ground (
        arith,
        has-ne p q (ps ++ qs) u.1.1.0 m,
        has-ne s.list.head q (ps ++ qs) (ground arith) m,
      ) in
    let at_p : s'.heap.next p ≡ s.list.prealloc = ground arith in
    record {
      forward =
          Forward-move s.heap s'.heap p s.list.head ps s.list.tail (ground arith)
            (λ q m. (other q (ground (arith, has-append q ps qs)), refl)) l.forward.2;
      spare = (
        refl,
        l.forward.1,
        subst (λ z. Spare s'.heap z qs) (sym at_p)
            (Spare-frame s.heap s'.heap s.list.prealloc qs
              (λ q m. (other q (ground (arith, has-append q ps qs)), refl)) l.spare),
      );
      distinct = (
        ground (arith, has-middle s.list.head ps p qs),
        (ground (arith, has-middle s.list.tail ps p qs), Uniq-put ps p qs u.1.1),
      );
      head_alive = l.head_alive;
      tail_alive = l.tail_alive;
      null_dead = l.null_dead;
      tail_end = ground (arith, l.tail_end);
      counted = rw positive (omega (arith, l.counted));
    }

-- the loop empties the list
Emptied : Store → ℕ → Store → Type 0
Emptied s n s' =
    (s'.list.max_size ≡ s.list.max_size) × ((qs : List Ptr) × Loose s' [] qs × (length qs ≡ n))

clear_loop_step :
    (s : Store) (p : Ptr) (n : ℕ)
    → s.heap.alive s.list.head ≡ true
    → s.heap.next s.list.head ≡ p
    → (p == s.list.tail) ≡ false
    → s.heap.alive p ≡ true
    → clear_loop (suc n) s ≡ clear_loop n (freed s p)
unfolding clear_loop get_next set_next
clear_loop_step s p n ha hn e ap = simp (ha, hn, e, ap)

clear_loop_lem :
    (s : Store) (ps qs : List Ptr)
    → Loose s ps qs
    → Returns (Emptied s (length ps + length qs)) (clear_loop (suc (length ps)) s)
unfolding clear_loop get_next set_next Emptied
clear_loop_lem s [] qs l =
    let e : (s.heap.next s.list.head == s.list.tail) ≡ true = ground (arith, l.forward) in
    rw (l.head_alive, e) (returns (refl, (qs, l, omega arith)))
clear_loop_lem s (p ∷ ps) qs l =
    let e : (p == s.list.tail) ≡ false = ground (arith, l.distinct) in
    let step = clear_loop_step s p (suc (length ps)) l.head_alive l.forward.0 e l.forward.1 in
    rw (step, clear_loop)
      (subst (λ k. Returns (Emptied s k) (clear_loop (suc (length ps)) (freed s p))) (omega arith)
        (clear_loop_lem (freed s p) ps (p ∷ qs) (freed-Loose s p ps qs l)))

-- the last assignment mends the chain
closed-IsList :
    (s : Store) (qs : List Ptr)
    → Loose s [] qs
    → IsList
        (record s { heap = record (s.heap) { prev = update s.heap.prev s.list.tail s.list.head } })
        []
        qs
closed-IsList s qs l = record {
  linked = (l.forward, ground arith);
  spare =
      Spare-frame s.heap (record (s.heap) { prev = update s.heap.prev s.list.tail s.list.head })
        s.list.prealloc qs (λ q m. (refl, refl)) l.spare;
  distinct = l.distinct;
  head_alive = l.head_alive;
  tail_alive = l.tail_alive;
  null_dead = l.null_dead;
  tail_end = l.tail_end;
  counted = l.counted;
  bounded = omega (arith, l.counted);
}

-- On a list in order sky_list_clear returns, and the list is in order and empty, with the same
-- limit and with every item among the spare ones.
pub clear_lem :
    (s : Store) (ps qs : List Ptr)
    → IsList s ps qs
    → Returns
        (λ s'.
          (max_size s' ≡ max_size s)
          × ((qs' : List Ptr) × IsList s' [] qs' × (length qs' ≡ length ps + length qs)))
        (clear s)
unfolding clear max_size set_prev Emptied
clear_lem s ps qs is =
    let start : Loose s ps qs = record {
      forward = Linked-Forward s.heap s.list.head ps s.list.tail is.linked;
      spare = is.spare;
      distinct = is.distinct;
      head_alive = is.head_alive;
      tail_alive = is.tail_alive;
      null_dead = is.null_dead;
      tail_end = is.tail_end;
      counted = is.counted;
    } in
    let fuel : s.list.count + 1 ≡ suc (length ps) = omega (arith, is.counted) in
    let (s', run, done) = result (clear_loop_lem s ps qs start) in
    let (limit, (qs', left, size)) = done in
    rw (fuel, run, left.tail_alive) (returns (limit, (qs', closed-IsList s' qs' left, size)))
