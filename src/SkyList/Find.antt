-- ===== src/SkyList/Find.antt =====
-- sky_list_remove_if and sky_list_find_if (sky/src/sky_list.c).
use mathlib.Core.Path.{subst}
use skysdk.Base.{
  suc, ◌+◌, ◌≡◌, refl, ap, ◌==◌, ◌⊎◌, inl, inr, Bool, true, false, none, some, List, [], ◌∷◌, ◌++◌,
  map, length, arith, Bool-cases, Run, ok, Returns, returns,
}
use skysdk.SkyList.{Ptr, Heap, Store, get_item, get_next}
use skysdk.SkyList.Scan.{scan, remove_if, find_if}
use skysdk.SkyList.Addresses.{has, has-append}
use skysdk.SkyList.Linked.{Linked, Linked-split, Linked-ends, last, has-last}
use skysdk.SkyList.Insert.{first}
use skysdk.SkyList.Push.{first_lem, first_alive, last_alive}
use skysdk.SkyList.Rep.{IsList, contents}
use skysdk.SkyList.Remove.{removed_away}
use skysdk.SkyList.Pop.{take_first, data_of, Removed, removed-Removed, remove_if_run}

-- where the scan of a chain stops: at the first item whose data passes
abbrev Stops : Heap → (Ptr → Bool) → List Ptr → Ptr → Run Ptr → Type 0
Stops h test ps b run =
    ((take_first test (map h.item ps) ≡ none) × (run ≡ ok b))
    ⊎ ((pre : List Ptr) × (x : Ptr) × (post : List Ptr) × (ps ≡ pre ++ x ∷ post)
        × (take_first test (map h.item ps) ≡ some (h.item x, map h.item pre ++ map h.item post))
        × (run ≡ ok x))

module _ (h : Heap) (b : Ptr) (test : Ptr → Bool) where
  scan_lem :
      (a : Ptr) (ps : List Ptr)
      → Linked h a ps b
      → has b ps ≡ false
      → Stops h test ps b (scan h b test (suc (length ps)) (first b ps))
  unfolding scan get_item get_next
  scan_lem a [] l out = inl (refl, let e : (b == b) ≡ true = ground arith in rw e refl)
  scan_lem a (p ∷ ps) (n, v, i, l) out =
      let e : (p == b) ≡ false = ground arith in
      let on = (first_lem h p ps b l).0 in
      let rest = scan_lem p ps l (ground arith) in
      elim rest [
        | inl (nothing, run) ↦ elim (Bool-cases (test (h.item p))) [
          | inl hit ↦ inr ([], p, ps, refl, rw hit refl, rw (e, i, on, run, hit) refl)
          | inr miss ↦ inl (rw (miss, nothing) refl, rw (e, i, on, run, miss) refl)
        ]
        | inr (pre, x, post, cut, found, run) ↦ elim (Bool-cases (test (h.item p))) [
          | inl hit ↦ inr ([], p, ps, refl, rw hit refl, rw (e, i, on, run, hit) refl)
          | inr miss ↦ inr (
            p ∷ pre,
            x,
            post,
            ap (λ r. p ∷ r) cut,
            rw (miss, found) refl,
            rw (e, i, on, run, miss) refl,
          )
        ]
      ]

module _ (s : Store) (ps qs : List Ptr) (test : Ptr → Bool) (is : IsList s ps qs) where
  -- the scan that both operations start
  list_scan :
      Stops s.heap test ps s.list.tail
        (scan s.heap s.list.tail test (s.list.count + 1) (s.heap.next s.list.head))
  list_scan =
      let out : has s.list.tail ps ≡ false =
        ground (arith, is.distinct.1.0, has-append s.list.tail ps qs) in
      let fuel : s.list.count + 1 ≡ suc (length ps) = omega (arith, is.counted) in
      rw (fuel, (first_lem s.heap s.list.head ps s.list.tail is.linked).0)
        (scan_lem s.heap s.list.tail test s.list.head ps is.linked out)

  -- On a list in order sky_list_find_if returns the first element that passes, or NULL if none
  -- does.
  pub find_if_lem : find_if s test ≡ ok (data_of (take_first test (contents s ps)))
  unfolding find_if get_next get_item
  find_if_lem = elim list_scan [
    | inl (nothing, run) ↦
        let e : (s.list.tail == s.list.tail) ≡ true = ground arith in
        rw (is.head_alive, run, e, nothing) refl
    | inr (pre, x, post, cut, found, run) ↦
        let (left, ax, right) =
          Linked-split s.heap s.list.head pre x post s.list.tail
            (subst (λ z. Linked s.heap s.list.head z s.list.tail) cut is.linked) in
        let e : (x == s.list.tail) ≡ false = ground (
          arith,
          is.distinct.1.0,
          has-append s.list.tail ps qs,
          ap (has s.list.tail) cut,
          has-append s.list.tail pre (x ∷ post),
        ) in
        rw (is.head_alive, run, e, ax, found) refl
  ]

  -- On a list in order sky_list_remove_if returns. If no element passes, it gives NULL and changes
  -- nothing. Otherwise it gives the first element that passes, and the list is in order and holds
  -- the others, in their order.
  pub remove_if_lem : Returns (Removed s (take_first test (contents s ps))) (remove_if s test)
  unfolding remove_if get_next
  remove_if_lem = elim list_scan [
    | inl (nothing, run) ↦
        let e : (s.list.tail == s.list.tail) ≡ true = ground arith in
        rw (is.head_alive, run, e, nothing) (returns (refl, refl))
    | inr (pre, x, post, cut, found, run) ↦
        let is' = subst (λ z. IsList s z qs) cut is in
        let away = removed_away s pre post qs x is' in
        let (left, ax, right) = Linked-split s.heap s.list.head pre x post s.list.tail is'.linked in
        let ends = Linked-ends s.heap s.list.head pre x left in
        let done =
          remove_if_run s x (last s.list.head pre) (first s.list.tail post)
            (has-last x s.list.head pre (ground (arith, away, has-append x pre post))) ax
            (last_alive s.heap s.list.head pre x left is.head_alive)
            (first_alive s.heap x post s.list.tail right is.tail_alive)
            (first_lem s.heap x post s.list.tail right).0 ends.1 (ground (arith, away)) test
            is.head_alive run in
        rw (done, remove_if, found) (returns (removed-Removed s pre post qs x is'))
  ]
