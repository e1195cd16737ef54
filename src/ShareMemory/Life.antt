-- ===== src/ShareMemory/Life.antt =====
-- The start of shared memory and the end behind it (sky/src/sky_ipc_shm.c).
use skysdk.Base.{
  ℕ, ◌<◌, ◌==◌, ◌≡◌, ◌⊎◌, refl, ap, sym, ◌∙◌, inl, inr, Bool, true, false, Bool-cases, Option, none,
  some, [], ◌∷◌, Returns, returns, result, arith,
}
use skysdk.Memory.{Memory, more, asked, alloc, alloc_lem, refusal, free_lem}
use skysdk.SkyList.{Ptr, null, update, Heap, Store}
use skysdk.SkyList.Front.{create as create_list}
use skysdk.SkyList.Rep.{IsList}
use skysdk.SkyList.Reads.{create_lem}
use skysdk.SkyList.Destroy.{Gone, list_destroy_lem}
use skysdk.CriticalSection.{Ops, recursive, create as create_section, destroy as destroy_section}
use skysdk.ShareMemory.Statics.{Statics, init, init_section, uninit}

-- what sky_share_memory_init comes to: the list and the critical section, or why not
abbrev pub Begun : {M : Type 0} → Ops M → (fresh : Ptr) → Statics M → Bool × Statics M → Type 0
Begun ops fresh st (true, st') =
    ((s : Store) × (st'.share_mem_list ≡ some s) × IsList s [] [] × (s.list.max_size ≡ 1000))
    × (st'.share_mem_list_cs ≡ some (ops.init recursive))
Begun ops fresh st (false, st') = (fresh ≡ null) ⊎ (st.memory.grants st.memory.requests ≡ false)

-- the same addresses are allocated
abbrev pub Same : Heap → Option Heap → Type 0
Same h none = Unit
Same h (some g) = (q : Ptr) → g.alive q ≡ h.alive q

-- sky_share_memory_uninit has left everything as it was before the start
abbrev pub Over : {M : Type 0} → Heap → Statics M → Option Heap × Statics M → Type 0
Over h st (g, st') =
    (st'.share_mem_list ≡ none)
    × (st'.share_mem_list_cs ≡ none)
    × (st'.memory.live ≡ st.memory.live)
    × Same h g

freed_again :
    (h : Heap) (s : Store) (head tail : Ptr) (g : Heap)
    → h.alive head ≡ false
    → h.alive tail ≡ false
    → s.heap.alive ≡ update (update h.alive head true) tail true
    → Gone s.heap (head ∷ tail ∷ []) g
    → (q : Ptr) → g.alive q ≡ h.alive q
freed_again h s head tail g dead_head dead_tail made gone q =
    let there : s.heap.alive q ≡ update (update h.alive head true) tail true q =
      ap (λ f. f q) made in
    elim (Bool-cases (head == q)) [
      | inl at_head ↦ gone q ∙ rw at_head (sym dead_head ∙ ap h.alive (ground arith))
      | inr not_head ↦ elim (Bool-cases (tail == q)) [
        | inl at_tail ↦ gone q ∙ rw (not_head, at_tail) (sym dead_tail ∙ ap h.alive (ground arith))
        | inr not_tail ↦ gone q ∙ rw (not_head, not_tail) (there ∙ ground arith)
      ]
    ]

no_list :
    (h : Heap) (fresh head tail : Ptr)
    → (fresh == null) ≡ true
    → create_list h 1000 fresh head tail ≡ none
unfolding create_list
no_list h fresh head tail e = rw e refl

nothing_made :
    {M : Type 0} (h : Heap) (spare : ℕ) (m : Memory)
    → Returns
        (Over {M = M} h (record { share_mem_list = none; share_mem_list_cs = none; memory = m }))
        (uninit spare (record { share_mem_list = none; share_mem_list_cs = none; memory = m }))
unfolding uninit destroy_section
nothing_made h spare m = returns (refl, refl, refl, tt)

module _ {M : Type 0} (ops : Ops M) (h : Heap) (fresh head tail : Ptr) (spare : ℕ) (m : Memory)
    (dead_head : h.alive head ≡ false) (dead_tail : h.alive tail ≡ false)
    (some_fuel : 0 < spare) where
  abbrev idle : Statics M
  idle = record { share_mem_list = none; share_mem_list_cs = none; memory = m }

  abbrev End : Option M → Memory → Store → Type 0
  End cs m' s =
      Returns (Over h idle)
        (uninit spare (record { share_mem_list = some s; share_mem_list_cs = cs; memory = m' }))

  -- the list is destroyed, with a critical section or without
  ends_lem :
      (s : Store)
      → IsList s [] []
      → s.list.head ≡ head
      → s.list.tail ≡ tail
      → s.heap.alive ≡ update (update h.alive head true) tail true
      → End (some (ops.init recursive)) (more m) s × End none (asked m) s
  unfolding uninit destroy_section
  ends_lem s is at_head at_tail made =
      let (g, run, gone) = result (list_destroy_lem s [] [] spare is (omega (arith, some_fuel))) in
      let gone' : Gone s.heap (head ∷ tail ∷ []) g = rw (at_head, at_tail) at gone in
      let same = freed_again h s head tail g dead_head dead_tail made gone' in
      (
        rw (run, free_lem (more m) m.live (omega arith)) (returns (refl, refl, refl, same)),
        rw run (returns (refl, refl, refl, same)),
      )

  init_none :
      create_list h 1000 fresh head tail ≡ none → init ops h fresh head tail idle ≡ (false, idle)
  unfolding init
  init_none none_made = rw (none_made, init) refl

  -- the static variables with a list
  abbrev listed : Store → Option M → Memory → Statics M
  listed s cs m' = record { share_mem_list = some s; share_mem_list_cs = cs; memory = m' }

  init_listed :
      (s : Store)
      → create_list h 1000 fresh head tail ≡ some s
      → init ops h fresh head tail idle ≡ init_section ops (listed s none m)
  unfolding init
  init_listed s made = rw (made, init) refl

  section_made :
      (s : Store)
      → alloc m ≡ (true, more m)
      → init_section ops (listed s none m) ≡ (true, listed s (some (ops.init recursive)) (more m))
  unfolding init_section create_section
  section_made s granted =
      let e : create_section ops m ≡ (some (ops.init recursive), more m) =
        rw (granted, create_section) refl in
      rw (e, init_section, e) refl

  section_refused :
      (s : Store)
      → alloc m ≡ (false, asked m)
      → init_section ops (listed s none m) ≡ (false, listed s none (asked m))
  unfolding init_section create_section
  section_refused s refused =
      let e : create_section ops m ≡ (none, asked m) = rw (refused, create_section) refl in
      rw (e, init_section, e) refl

  -- With no list and no critical section so far, two addresses for the sentinels that are not in
  -- use, not NULL and not the same, and a round of fuel: sky_share_memory_init gives true, with an
  -- empty list of at most 1000 objects and a new recursive critical section, or false, because the
  -- memory for one of them is refused. Either way sky_share_memory_uninit behind it returns and
  -- leaves neither, as many live blocks as before, and the same addresses of items in use.
  pub statics_lem :
      h.alive null ≡ false
      → (head == tail) ≡ false
      → (head == null) ≡ false
      → (tail == null) ≡ false
      → Begun ops fresh idle (init ops h fresh head tail idle)
        × Returns (Over h idle) (uninit spare (init ops h fresh head tail idle).1)
  statics_lem dead_null apart some_head some_tail = elim (Bool-cases (fresh == null)) [
    | inl no_struct ↦
        let none_made : create_list h 1000 fresh head tail ≡ none =
          no_list h fresh head tail no_struct in
        rw (init_none none_made) (inl (ground arith), nothing_made h spare m)
    | inr struct ↦
        let (s, made, is, limit, at_head, at_tail, addresses) =
          create_lem h 1000 fresh head tail (omega arith) struct dead_null apart some_head
            some_tail in
        let (whole, half) = ends_lem s is at_head at_tail addresses in
        elim (alloc_lem m) [
          | inl granted ↦
              rw (init_listed s made ∙ section_made s granted) (((s, refl, is, limit), refl), whole)
          | inr refused ↦
              rw (init_listed s made ∙ section_refused s refused) (inr (refusal m refused), half)
        ]
  ]
