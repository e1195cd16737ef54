-- ===== src/Map.antt =====
-- sky/src/sky_map.c: a map from strings to strings in two parallel arrays that grow and shrink by
-- one slot. The struct is the record `MapData`; a handle is `Option MapData`, with `none` for NULL.
pub mod Storage
pub mod Entries
pub mod Api
pub mod Lifetime
pub mod Rep
pub mod Vectors
pub mod Growth
pub mod Insert
pub mod Remove
pub mod Locate
pub mod Add
pub mod Replace
pub mod Delete
pub mod Read
pub mod Lookup
pub mod Laws
pub mod Destroy
pub mod Copies
pub mod Calls
pub mod Histories
pub mod Create
pub mod Clone
mod Tests
use skysdk.Base.{ℕ, Option, List, Str}
use skysdk.Base.Int.{ℤ}
use skysdk.Memory.{Memory}

-- A `char*` in an array: never written, NULL, or a block with a string.
pub data Slot : Type 0 where
  wild null : Slot
  str : Str → Slot

-- A `char**`: NULL, or a block of slots.
abbrev pub Vector : Type 0
Vector = Option (List Slot)

-- MAP_FILTER_CALLBACK, called with a key and a value
abbrev pub Filter : Type 0
Filter = Str → Str → ℤ

pub record MapData : Type 0 where
  pub keys : Vector
  pub values : Vector
  pub count : ℕ
  pub filter : Option Filter

pub data MapResult : Type 0 where
  map_ok map_error map_invalidarg map_keyexists map_keynotfound map_filter_reject : MapResult

pub record State : Type 0 where
  pub map : MapData
  pub mem : Memory
