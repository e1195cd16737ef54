-- ===== src/ShareMemory/Resources.antt =====
-- What sky_share_memory_create and sky_share_memory_open (sky/src/sky_ipc_shm.c) hold of the system.
use skysdk.Base.{
  refl, inl, inr, Bool-cases, arith, ℕ, ◌+◌, ◌-◌, ◌==◌, ◌≡◌, ◌≢◌, Bool, true, false, none, some,
  List, [], ◌∷◌, Str, str_eq, if◌then◌else◌,
}
use skysdk.SkyList.{Ptr, null}
use skysdk.ShareMemory.{
  map_failed, ShareMem, Syscall, opened, closed, mapped, unmapped, linked, unlinked, World,
}

-- How often a descriptor is open, a mapping stands, and a name is linked, after the calls.
unfoldable pub open_count : (fd : ℕ) → List Syscall → ℕ
open_count fd [] = 0
open_count fd (opened e ∷ cs) = if e == fd then open_count fd cs + 1 else open_count fd cs
open_count fd (closed e ∷ cs) = if e == fd then open_count fd cs - 1 else open_count fd cs
open_count fd (mapped q n ∷ cs) = open_count fd cs
open_count fd (unmapped q n ∷ cs) = open_count fd cs
open_count fd (linked j ∷ cs) = open_count fd cs
open_count fd (unlinked j ∷ cs) = open_count fd cs

abbrev pub same_area : Ptr → ℕ → Ptr → ℕ → Bool
same_area p m q n = if p == q then m == n else false

unfoldable pub map_count : Ptr → (size : ℕ) → List Syscall → ℕ
map_count p m [] = 0
map_count p m (mapped q n ∷ cs) =
    if same_area q n p m then map_count p m cs + 1 else map_count p m cs
map_count p m (unmapped q n ∷ cs) =
    if same_area q n p m then map_count p m cs - 1 else map_count p m cs
map_count p m (opened e ∷ cs) = map_count p m cs
map_count p m (closed e ∷ cs) = map_count p m cs
map_count p m (linked j ∷ cs) = map_count p m cs
map_count p m (unlinked j ∷ cs) = map_count p m cs

unfoldable pub link_count : Str → List Syscall → ℕ
link_count j [] = 0
link_count j (linked k ∷ cs) = if str_eq k j then link_count j cs + 1 else link_count j cs
link_count j (unlinked k ∷ cs) = if str_eq k j then link_count j cs - 1 else link_count j cs
link_count j (mapped q n ∷ cs) = link_count j cs
link_count j (unmapped q n ∷ cs) = link_count j cs
link_count j (opened e ∷ cs) = link_count j cs
link_count j (closed e ∷ cs) = link_count j cs

-- what a struct holds of each
abbrev pub holds_open : ℕ → ShareMem → ℕ
holds_open fd p = elim p.file [ none ↦ 0 | some e ↦ if e == fd then 1 else 0 ]

abbrev pub holds_mapped : Ptr → ℕ → ShareMem → ℕ
holds_mapped q n p = if same_area p.ptr p.size q n then 1 else 0

abbrev pub holds_linked : Str → ShareMem → ℕ
holds_linked j p = elim p.file [ none ↦ 0 | some e ↦ if str_eq p.name j then 1 else 0 ]

-- an address that mmap gives
abbrev pub IsMapping : Ptr → Type 0
IsMapping q = (q ≢ null) × (q ≢ map_failed)

-- `cs'` are the calls `cs` and those that took what the struct holds; names count for a creator.
pub record Holds (creator : Bool) (cs cs' : List Syscall) (p : ShareMem) : Type 0 where
  pub files : (fd : ℕ) → open_count fd cs' ≡ open_count fd cs + holds_open fd p
  pub areas :
      (q : Ptr) (n : ℕ) → IsMapping q → map_count q n cs' ≡ map_count q n cs + holds_mapped q n p
  pub names : creator ≡ true → (j : Str) → link_count j cs' ≡ link_count j cs + holds_linked j p

-- everything taken has been given back
pub record Balanced (creator : Bool) (cs cs' : List Syscall) : Type 0 where
  pub files : (fd : ℕ) → open_count fd cs' ≡ open_count fd cs
  pub areas : (q : Ptr) (n : ℕ) → IsMapping q → map_count q n cs' ≡ map_count q n cs
  pub names : creator ≡ true → (j : Str) → link_count j cs' ≡ link_count j cs

-- the calls that give_up makes
abbrev pub unmapping : ShareMem → List Syscall → List Syscall
unmapping p cs = if p.ptr == map_failed then cs else unmapped p.ptr p.size ∷ cs

abbrev pub closing : ShareMem → List Syscall → List Syscall
closing p cs = elim p.file [ none ↦ cs | some fd ↦ unlinked p.name ∷ closed fd ∷ cs ]

abbrev pub with_calls : {M : Type 0} → List Syscall → World M → World M
with_calls cs w = record w { calls = cs }

-- The same on every address and name: what mmap does not give counts for nothing, nor do the names of
-- an object that the caller did not create.
abbrev only_mapping : Ptr → ℕ → ℕ
only_mapping q n = if q == null then 0 else if q == map_failed then 0 else n

abbrev only_creator : Bool → ℕ → ℕ
only_creator creator n = if creator then n else 0

pub record Owns (creator : Bool) (cs cs' : List Syscall) (p : ShareMem) : Type 0 where
  pub files : (fd : ℕ) → open_count fd cs' ≡ open_count fd cs + holds_open fd p
  pub areas :
      (q : Ptr) (n : ℕ)
      → only_mapping q (map_count q n cs') ≡ only_mapping q (map_count q n cs + holds_mapped q n p)
  pub names :
      (j : Str)
      → only_creator creator (link_count j cs')
        ≡ only_creator creator (link_count j cs + holds_linked j p)

pub record Kept (creator : Bool) (cs cs' : List Syscall) : Type 0 where
  pub files : (fd : ℕ) → open_count fd cs' ≡ open_count fd cs
  pub areas :
      (q : Ptr) (n : ℕ) → only_mapping q (map_count q n cs') ≡ only_mapping q (map_count q n cs)
  pub names :
      (j : Str) → only_creator creator (link_count j cs') ≡ only_creator creator (link_count j cs)

mappings : (q : Ptr) (a b : ℕ) → (IsMapping q → a ≡ b) → only_mapping q a ≡ only_mapping q b
mappings q a b same = elim (Bool-cases (q == null)) [
  | inl e ↦ rw e refl
  | inr ne ↦ elim (Bool-cases (q == map_failed)) [
    | inl e ↦ rw (ne, e) refl
    | inr ne' ↦ rw (ne, ne') (same (λ h. ground (arith, h, ne), λ h. ground (arith, h, ne')))
  ]
]

creations :
    (creator : Bool) (a b : ℕ)
    → (creator ≡ true → a ≡ b)
    → only_creator creator a ≡ only_creator creator b
creations true a b same = same refl
creations false a b same = refl

pub Holds-Owns :
    (creator : Bool) (cs cs' : List Syscall) (p : ShareMem)
    → Holds creator cs cs' p
    → Owns creator cs cs' p
Holds-Owns creator cs cs' p h = record {
  files = h.files;
  areas =
      λ q n. mappings q (map_count q n cs') (map_count q n cs + holds_mapped q n p) (h.areas q n);
  names = λ j.
      creations creator (link_count j cs') (link_count j cs + holds_linked j p) (λ c. h.names c j);
}

pub Balanced-Kept :
    (creator : Bool) (cs cs' : List Syscall) → Balanced creator cs cs' → Kept creator cs cs'
Balanced-Kept creator cs cs' h = record {
  files = h.files;
  areas = λ q n. mappings q (map_count q n cs') (map_count q n cs) (h.areas q n);
  names = λ j. creations creator (link_count j cs') (link_count j cs) (λ c. h.names c j);
}
