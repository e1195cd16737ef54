-- ===== src/Map/Rep.antt =====
-- What a map stands for: a list of entries, in the order of insertion, the arrays that hold it, and
-- the blocks that it owns.
use skysdk.Base.{
  ℕ, suc, ◌+◌, ◌*◌, ◌≡◌, Bool, true, false, Option, none, some, List, [], ◌∷◌, ◌++◌, map, Str,
  str_eq, length, if◌then◌else◌,
}
use skysdk.Memory.{Memory}
use skysdk.Map.{Slot, str, Vector, MapData, State}

abbrev pub Entries : Type 0
Entries = List (Str × Str)

abbrev pub key_list : Entries → List Str
key_list = map (λ e. e.0)

abbrev pub value_list : Entries → List Str
value_list = map (λ e. e.1)

abbrev pub strs : List Str → List Slot
strs = map str

-- NULL where there is nothing to hold; otherwise a block that begins with the strings
abbrev pub Holds : List Str → Vector → Type 0
Holds [] v = v ≡ none
Holds (s ∷ ss) v = (rest : List Slot) × (v ≡ some (strs (s ∷ ss) ++ rest))

pub record Represents (es : Entries) (d : MapData) : Type 0 where
  pub counted : d.count ≡ length es
  pub keys : Holds (key_list es) d.keys
  pub values : Holds (value_list es) d.values

-- the struct, and for a map that is not empty two arrays and two strings for each entry
abbrev pub owned : Entries → ℕ
owned [] = 1
owned (e ∷ es) = 3 + 2 * length (e ∷ es)

-- The requests that the allocator grants.
abbrev pub Policy : Type 0
Policy = ℕ → Bool

-- some request is refused
abbrev pub Refuses : Policy → Type 0
Refuses g = (n : ℕ) × (g n ≡ false)

-- beside the blocks of the map there are `other` live blocks
pub record IsValid (g : Policy) (other : ℕ) (es : Entries) (s : State) : Type 0 where
  pub policy : s.mem.grants ≡ g
  pub rep : Represents es s.map
  pub blocks : s.mem.live ≡ other + owned es

-- whether a string is in a list
unfoldable pub contains : Str → List Str → Bool
contains key [] = false
contains key (s ∷ ss) = if str_eq s key then true else contains key ss

-- no key twice
abbrev pub Distinct : List Str → Type 0
Distinct [] = Unit
Distinct (s ∷ ss) = (contains s ss ≡ false) × Distinct ss

-- the map and the memory of a call, with no key twice
pub record IsMap (g : Policy) (other : ℕ) (es : Entries) (d : MapData) (m : Memory) : Type 0 where
  pub valid : IsValid g other es (record { map = d; mem = m })
  pub distinct : Distinct (key_list es)

-- The abstract operations.
unfoldable pub index_from : ℕ → Str → List Str → Option ℕ
index_from i key [] = none
index_from i key (s ∷ ss) = if str_eq s key then some i else index_from (suc i) key ss

unfoldable pub lookup : Str → Entries → Option Str
lookup key [] = none
lookup key (e ∷ es) = if str_eq e.0 key then some e.1 else lookup key es

unfoldable pub update : Str → Str → Entries → Entries
update key value [] = []
update key value (e ∷ es) = if str_eq e.0 key then (e.0, value) ∷ es else e ∷ update key value es

unfoldable pub erase : Str → Entries → Entries
erase key [] = []
erase key (e ∷ es) = if str_eq e.0 key then es else e ∷ erase key es
