-- ===== src/ShareMemory/Outcome.antt =====
-- what a call of sky_share_memory_create or sky_share_memory_open (sky/src/sky_ipc_shm.c) leaves behind
use skysdk.Base.{
  ℕ, ◌+◌, ◌-◌, ◌≡◌, ◌⊎◌, Bool, true, false, Option, some, List, [], ◌∷◌, ◌++◌, Str, length, ltb,
}
use skysdk.SkyList.{Ptr, null, update}
use skysdk.SkyList.Front.{full}
use skysdk.SkyList.Rep.{IsList, contents}
use skysdk.ShareMemory.{ShareMem, World, Answers}
use skysdk.ShareMemory.Resources.{Owns, Kept}
use skysdk.ShareMemory.Acquire.{Failed}

-- Nothing is left of a call that failed: the list, the critical section, the structs and the number of
-- live blocks are those of before, and what was taken from the system has been given back.
abbrev pub Refused : {M : Type 0} → (creator : Bool) → World M → World M → Type 0
Refused creator w w' =
    (w'.registry ≡ w.registry)
    × (w'.section ≡ w.section)
    × (w'.structs ≡ w.structs)
    × (w'.memory.live ≡ w.memory.live)
    × Kept creator w.calls w'.calls

abbrev pub Named : (creator : Bool) → Answers → Str → ShareMem → Type 0
Named creator a name p =
    (p.file ≡ a.descriptor)
    × (some (p.ptr) ≡ a.mapping)
    × (p.is_creator ≡ creator)
    × (p.name ≡ name)

-- The handle stands behind the others in the list; its struct names the object, holds the descriptor
-- and the mapping, and is one more live block.
abbrev pub Listed :
    {M : Type 0} → (creator : Bool) → Answers → World M → (ps : List Ptr) → Str → World M → Type 0
Listed creator a w ps name w' =
    ((ps' : List Ptr) × (qs' : List Ptr) × IsList w'.registry ps' qs'
      × (contents w'.registry ps' ≡ contents w.registry ps ++ a.place ∷ []))
    × ((p : ShareMem) × (w'.structs ≡ update w.structs a.place (some p))
        × Owns creator w.calls w'.calls p
        × Named creator a name p)
    × (w'.section ≡ w.section)
    × (w'.memory.live ≡ w.memory.live + 1)

abbrev pub Opened :
    {M : Type 0}
    → (creator : Bool) → Answers
    → World M
    → (ps : List Ptr) → Str
    → (why : Type 0) → Option (Ptr × World M)
    → Type 0
Opened {M} creator a w ps name why r =
    (h : Ptr) × (w' : World M) × (r ≡ some (h, w'))
    × (((h ≡ null) × why × Refused creator w w') ⊎ ((h ≡ a.place) × Listed creator a w ps name w'))

-- Why a call may be refused: the name is too long, there is no memory for the struct, the system
-- refuses the object, or the list is full or has no memory for an item.
abbrev pub Why : {M : Type 0} → (name_max : ℕ) → Answers → World M → (qs : List Ptr) → Str → Type 0
Why name_max a w qs name =
    (ltb (name_max - 1) (length name) ≡ true)
    ⊎ (w.memory.grants w.memory.requests ≡ false)
    ⊎ Failed a
    ⊎ ((full w.registry ≡ true) ⊎ ((a.item ≡ null) × (qs ≡ [])))
