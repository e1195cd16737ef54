-- ===== src/ShareMemory/Statics.antt =====
-- The static variables of sky/src/sky_ipc_shm.c, their start and their end.
use skysdk.Base.{ℕ, Bool, true, false, Option, none, some, Run, ok, ◌>>=◌}
use skysdk.Memory.{Memory}
use skysdk.SkyList.{Ptr, Heap, Store}
use skysdk.SkyList.Front.{create as create_list}
use skysdk.SkyList.Scan.{destroy as destroy_list}
use skysdk.CriticalSection.{Ops, create as create_section, destroy as destroy_section}

-- share_mem_list and share_mem_list_cs, with the memory
pub record Statics (M : Type 0) : Type 0 where
  pub share_mem_list : Option Store
  pub share_mem_list_cs : Option M
  pub memory : Memory

-- the second half of sky_share_memory_init
unfoldable pub init_section : {M : Type 0} → Ops M → Statics M → Bool × Statics M
init_section ops st = elim st.share_mem_list_cs [
  | some section ↦ (true, st)
  | none ↦
      let (made, m) = create_section ops st.memory in
      elim made [
        | none ↦ (false, record st { memory = m })
        | some section ↦ (true, record st { share_mem_list_cs = some section; memory = m })
      ]
]

-- sky_share_memory_init; the list would be made at the addresses
unfoldable pub init :
    {M : Type 0} → Ops M → Heap → (fresh head tail : Ptr) → Statics M → Bool × Statics M
init ops h fresh head tail st = elim st.share_mem_list [
  | some registry ↦ init_section ops st
  | none ↦ elim (create_list h 1000 fresh head tail) [
    | none ↦ (false, st)
    | some registry ↦ init_section ops (record st { share_mem_list = some registry })
  ]
]

-- sky_share_memory_uninit, with fuel for the spare items of the list: the heap that is left, if there
-- was a list, and the static variables
unfoldable pub uninit : {M : Type 0} → ℕ → Statics M → Run (Option Heap × Statics M)
uninit spare st = do
  heap ← elim st.share_mem_list [
    | none ↦ ok none
    | some registry ↦ destroy_list spare registry >>= λ h. ok (some h)
  ]
  m ← destroy_section st.share_mem_list_cs st.memory
  ok (heap, record { share_mem_list = none; share_mem_list_cs = none; memory = m })
