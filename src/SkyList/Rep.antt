-- ===== src/SkyList/Rep.antt =====
-- When a store of sky/src/sky_list.c holds a list: the items between the sentinels in order, the spare
-- items, and nothing shared between them.
use mathlib.Core.Path.{subst}
use skysdk.Base.{
  ◌≤◌, ◌≡◌, refl, sym, ◌∙◌, inl, inr, true, false, List, [], ◌∷◌, ◌++◌, map, length, arith,
  Bool-cases,
}
use skysdk.SkyList.{Ptr, null, Heap, Store}
use skysdk.SkyList.Addresses.{has, Uniq, has-append}
use skysdk.SkyList.Linked.{Linked}

-- the spare items, from `p` by their next pointers to NULL
abbrev pub Spare : Heap → Ptr → List Ptr → Type 0
Spare h p [] = p ≡ null
Spare h p (q ∷ qs) = (p ≡ q) × (h.alive q ≡ true) × Spare h (h.next q) qs

-- The items `ps` in order and the spare items `qs`.
pub record IsList (s : Store) (ps qs : List Ptr) : Type 0 where
  pub linked : Linked s.heap s.list.head ps s.list.tail
  pub spare : Spare s.heap s.list.prealloc qs
  pub distinct : Uniq (s.list.head ∷ s.list.tail ∷ (ps ++ qs))
  pub head_alive : s.heap.alive s.list.head ≡ true
  pub tail_alive : s.heap.alive s.list.tail ≡ true
  pub null_dead : s.heap.alive null ≡ false
  pub tail_end : s.heap.next s.list.tail ≡ null
  pub counted : s.list.count ≡ length ps
  pub bounded : s.list.count ≤ s.list.max_size

-- The data of the items, in order.
abbrev pub contents : Store → List Ptr → List Ptr
contents s ps = map s.heap.item ps

-- an allocated item that is neither in the list nor spare
pub record Detached (s : Store) (ps qs : List Ptr) (x : Ptr) : Type 0 where
  pub rest : IsList s ps qs
  pub live : s.heap.alive x ≡ true
  pub away : has x (s.list.head ∷ s.list.tail ∷ (ps ++ qs)) ≡ false

pub alive_has :
    (h : Heap) (a : Ptr) (ps : List Ptr) (b q : Ptr)
    → Linked h a ps b
    → has q ps ≡ true
    → h.alive q ≡ true
alive_has h a [] b q l m = cc
alive_has h a (p ∷ ps) b q (n, v, i, l) m = ground (arith, alive_has h p ps b q l)

alive-Spare :
    (h : Heap) (p : Ptr) (qs : List Ptr) (q : Ptr)
    → Spare h p qs
    → has q qs ≡ true
    → h.alive q ≡ true
alive-Spare h p [] q l m = cc
alive-Spare h p (r ∷ qs) q (e, i, l) m = ground (arith, alive-Spare h (h.next r) qs q l)

-- every address of the list is allocated, so a dead one is away
pub dead-away :
    (s : Store) (ps qs : List Ptr) (x : Ptr)
    → IsList s ps qs
    → s.heap.alive x ≡ false
    → has x (s.list.head ∷ s.list.tail ∷ (ps ++ qs)) ≡ false
dead-away s ps qs x is dead = elim (Bool-cases (has x ps)) [
  | inl m ↦ absurd (ground (arith, alive_has s.heap s.list.head ps s.list.tail x is.linked m))
  | inr n ↦ elim (Bool-cases (has x qs)) [
    | inl m ↦ absurd (ground (arith, alive-Spare s.heap s.list.prealloc qs x is.spare m))
    | inr n' ↦ ground (arith, has-append x ps qs, is.head_alive, is.tail_alive)
  ]
]

pub Spare-frame :
    (h g : Heap) (p : Ptr) (qs : List Ptr)
    → ((q : Ptr) → has q qs ≡ true → (g.next q ≡ h.next q) × (g.alive q ≡ h.alive q))
    → Spare h p qs
    → Spare g p qs
Spare-frame h g p [] f l = l
Spare-frame h g p (q ∷ qs) f (e, i, l) =
    let same = f q (ground arith) in
    (
      e,
      same.1 ∙ i,
      subst (λ n. Spare g n qs) (sym same.0)
          (Spare-frame h g (h.next q) qs (λ r m. f r (ground arith)) l),
    )

pub map-agree :
    (f g : Ptr → Ptr) (ps : List Ptr)
    → ((q : Ptr) → has q ps ≡ true → g q ≡ f q)
    → map g ps ≡ map f ps
map-agree f g [] same = refl
map-agree f g (p ∷ ps) same =
    let e : g p ≡ f p = same p (ground arith) in
    rw (e, map-agree f g ps (λ q m. same q (ground arith)))
