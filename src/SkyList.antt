-- ===== src/SkyList.antt =====
-- sky/src/sky_list.c: a bounded doubly linked list between two sentinels, with a list of spare items
-- that removals feed and insertions use up. Items live on a heap with one map for each field.
pub mod Front
pub mod Scan
pub mod Addresses
pub mod Linked
pub mod Rep
pub mod Link
pub mod Insert
pub mod Take
pub mod Push
pub mod At
pub mod Remove
pub mod Pop
pub mod Find
pub mod Calls
pub mod Histories
pub mod Reads
pub mod Clear
pub mod Destroy
mod Tests
use skysdk.Base.{ℕ, ◌-◌, ◌==◌, Bool, true, false, if◌then◌else◌, Run, ok, fault, ◌>>=◌}

abbrev pub Ptr : Type 0
Ptr = ℕ

abbrev pub null : Ptr
null = 0

-- SKY_LIST_ITEM at each address: its fields, and whether the item is allocated
pub record Heap : Type 0 where
  pub alive : Ptr → Bool
  pub item : Ptr → Ptr
  pub next : Ptr → Ptr
  pub prev : Ptr → Ptr

-- SKY_HANDLE_LIST; `head` and `tail` are the addresses of the two sentinels within it
pub record Handle : Type 0 where
  pub head : Ptr
  pub tail : Ptr
  pub prealloc : Ptr
  pub count : ℕ
  pub max_size : ℕ

pub record Store : Type 0 where
  pub list : Handle
  pub heap : Heap

abbrev pub update {ℓ} : {A : Type ℓ} → (Ptr → A) → Ptr → A → Ptr → A
update f p v q = if p == q then v else f q

-- `count -= 1` on a uint32_t
unfoldable pub decrement : ℕ → ℕ
decrement n = if n == 0 then 0xffff_ffff else n - 1

-- accesses through a pointer, which fault unless an item is allocated there
unfoldable pub get_item : Heap → Ptr → Run Ptr
get_item h p = if h.alive p then ok (h.item p) else fault

unfoldable pub get_next : Heap → Ptr → Run Ptr
get_next h p = if h.alive p then ok (h.next p) else fault

unfoldable pub get_prev : Heap → Ptr → Run Ptr
get_prev h p = if h.alive p then ok (h.prev p) else fault

unfoldable pub set_item : Heap → Ptr → Ptr → Run Heap
set_item h p v = if h.alive p then ok (record h { item = update h.item p v }) else fault

unfoldable pub set_next : Heap → Ptr → Ptr → Run Heap
set_next h p v = if h.alive p then ok (record h { next = update h.next p v }) else fault

unfoldable pub set_prev : Heap → Ptr → Ptr → Run Heap
set_prev h p v = if h.alive p then ok (record h { prev = update h.prev p v }) else fault

-- sky_mem_alloc of an item at `fresh`, which is NULL if the memory is exhausted; the block is zeroed
unfoldable pub alloc_item : Heap → Ptr → Heap
alloc_item h fresh = if fresh == null then h else record {
  alive = update h.alive fresh true;
  item = update h.item fresh null;
  next = update h.next fresh null;
  prev = update h.prev fresh null;
}

-- sky_mem_free of an item
unfoldable pub free_item : Heap → Ptr → Run Heap
free_item h p = if h.alive p then ok (record h { alive = update h.alive p false }) else fault
