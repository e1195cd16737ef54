-- ===== src/SkyList/Linked.antt =====
-- Doubly linked chains on the heap of sky/src/sky_list.c, and how they bear a change of the heap.
use skysdk.Base.{◌≡◌, ◌∙◌, ◌==◌, true, false, List, [], ◌∷◌, ◌++◌, arith}
use skysdk.SkyList.{Ptr, Heap, update}
use skysdk.SkyList.Addresses.{has, Uniq}

-- From `a` the next pointers lead through the items `ps` to `b`, and the prev pointers back.
abbrev pub Linked : Heap → Ptr → List Ptr → Ptr → Type 0
Linked h a [] b = (h.next a ≡ b) × (h.prev b ≡ a)
Linked h a (p ∷ ps) b = (h.next a ≡ p) × (h.prev p ≡ a) × (h.alive p ≡ true) × Linked h p ps b

abbrev pub last : Ptr → List Ptr → Ptr
last a [] = a
last a (p ∷ ps) = last p ps

-- the heap with `item` set between `before` and `behind`
abbrev pub spliced : Heap → (item before behind : Ptr) → Heap
spliced h x u w = record h {
  next = update (update h.next x w) u x;
  prev = update (update h.prev x u) w x;
}

pub Linked-ends :
    (h : Heap) (a : Ptr) (ps : List Ptr) (b : Ptr)
    → Linked h a ps b
    → (h.next (last a ps) ≡ b) × (h.prev b ≡ last a ps)
Linked-ends h a [] b l = l
Linked-ends h a (p ∷ ps) b (n, v, i, l) = Linked-ends h p ps b l

pub has-last : (x a : Ptr) (ps : List Ptr) → has x (a ∷ ps) ≡ false → (last a ps == x) ≡ false
has-last x a [] h = ground arith
has-last x a (p ∷ ps) h = has-last x p ps (ground arith)

-- A new item behind the last one.
pub Linked-extend :
    (h : Heap) (a : Ptr) (ps : List Ptr) (x w : Ptr)
    → Linked h a ps w
    → Uniq (a ∷ ps)
    → has x (a ∷ ps) ≡ false
    → has w (x ∷ ps) ≡ false
    → h.alive x ≡ true
    → Linked (spliced h x (last a ps) w) a (ps ++ x ∷ []) w
Linked-extend h a [] x w (n, v) u fx fw ax = ground arith
Linked-extend h a (p ∷ ps) x w (n, v, i, l) u fx fw ax =
    let rest = Linked-extend h p ps x w l u.1 (ground arith) (ground arith) ax in
    (ground (arith, has-last a p ps u.0), ground arith, i, rest)

-- What a chain reads of the heap.
pub record Agree (h g : Heap) (a : Ptr) (ps : List Ptr) (b : Ptr) : Type 0 where
  pub nexts : (q : Ptr) → has q (a ∷ ps) ≡ true → g.next q ≡ h.next q
  pub prevs : (q : Ptr) → has q (ps ++ b ∷ []) ≡ true → g.prev q ≡ h.prev q
  pub lives : (q : Ptr) → has q ps ≡ true → g.alive q ≡ h.alive q

pub Linked-frame :
    (h g : Heap) (a : Ptr) (ps : List Ptr) (b : Ptr)
    → Agree h g a ps b
    → Linked h a ps b
    → Linked g a ps b
Linked-frame h g a [] b f (n, v) = (f.nexts a (ground arith) ∙ n, f.prevs b (ground arith) ∙ v)
Linked-frame h g a (p ∷ ps) b f (n, v, i, l) = (
  f.nexts a (ground arith) ∙ n,
  f.prevs p (ground arith) ∙ v,
  f.lives p (ground arith) ∙ i,
  Linked-frame h g p ps b
      (record {
        nexts = λ q m. f.nexts q (ground arith);
        prevs = λ q m. f.prevs q (ground arith);
        lives = λ q m. f.lives q (ground arith);
      })
      l,
)

pub Linked-append :
    (h : Heap) (a : Ptr) (ps : List Ptr) (q : Ptr) (qs : List Ptr) (b : Ptr)
    → Linked h a ps q
    → h.alive q ≡ true
    → Linked h q qs b
    → Linked h a (ps ++ q ∷ qs) b
Linked-append h a [] q qs b (n, v) i r = (n, v, i, r)
Linked-append h a (p ∷ ps) q qs b (n, v, j, l) i r = (n, v, j, Linked-append h p ps q qs b l i r)

pub Linked-split :
    (h : Heap) (a : Ptr) (ps : List Ptr) (q : Ptr) (qs : List Ptr) (b : Ptr)
    → Linked h a (ps ++ q ∷ qs) b
    → Linked h a ps q × (h.alive q ≡ true) × Linked h q qs b
Linked-split h a [] q qs b (n, v, i, r) = ((n, v), i, r)
Linked-split h a (p ∷ ps) q qs b (n, v, j, l) =
    let (left, i, right) = Linked-split h p ps q qs b l in ((n, v, j, left), i, right)

-- the heap with `before` and `behind` joined
abbrev pub joined : Heap → (before behind : Ptr) → Heap
joined h u w = record h { next = update h.next u w; prev = update h.prev w u }

-- The chain up to `x`, redirected to end at `w`.
pub Linked-redirect :
    (h : Heap) (a : Ptr) (ps : List Ptr) (x w : Ptr)
    → Linked h a ps x
    → Uniq (a ∷ ps)
    → has w ps ≡ false
    → Linked (joined h (last a ps) w) a ps w
Linked-redirect h a [] x w (n, v) u fw = ground arith
Linked-redirect h a (p ∷ ps) x w (n, v, i, l) u fw = (
  ground (arith, has-last a p ps u.0),
  ground arith,
  i,
  Linked-redirect h p ps x w l u.1 (ground arith),
)
