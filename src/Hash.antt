-- ===== src/Hash.antt =====
-- sky/src/sky_hash.c: a hash table over the one of the C library (hcreate_r, hsearch_r, hdestroy_r),
-- which is the parameter `ops`. The keys are copied; a list of the copies lets them be freed.
pub mod Search
pub mod Histories
mod Tests
use skysdk.Base.{
  ℕ, suc, ◌+◌, ◌%◌, ◌==◌, ◌≡◌, ◌⊎◌, Bool, true, false, Option, none, some, List, [], ◌∷◌, length,
  Str, str_eq, if◌then◌else◌, Run, ok, fault, ◌>>=◌,
}
use skysdk.Memory.{Memory, alloc, free}

-- What the code uses of the table of the C library: hcreate_r, hsearch_r with FIND and with ENTER, and
-- an assignment to `retval->data`.
pub record Ops (T : Type 0) : Type 0 where
  pub hcreate : ℕ → Option T
  pub search : T → Str → Option ℕ
  pub enter : T → Str → ℕ → Option T
  pub assign : T → Str → ℕ → T

-- What the C library says of them: a new table is empty; an insertion of a key that is
-- not there fails or adds the entry; an
-- assignment to an entry that was found changes its data and no other.
pub record Documented {T : Type 0} (ops : Ops T) : Type 0 where
  pub create_law :
      (n : ℕ)
      → (ops.hcreate n ≡ none)
        ⊎ ((t : T) × (ops.hcreate n ≡ some t) × ((j : Str) → ops.search t j ≡ none))
  pub enter_law :
      (t : T) (k : Str) (v : ℕ)
      → ops.search t k ≡ none
      → (ops.enter t k v ≡ none)
        ⊎ ((t' : T) × (ops.enter t k v ≡ some t')
            × ((j : Str) → ops.search t' j ≡ (if str_eq k j then some v else ops.search t j)))
  pub assign_law :
      (t : T) (k j : Str) (v w : ℕ)
      → ops.search t k ≡ some w
      → ops.search (ops.assign t k v) j ≡ (if str_eq k j then some v else ops.search t j)

-- SKY_HANDLE_HASH, with the copies of keys that `key_array` leads to
pub record Hash (T : Type 0) : Type 0 where
  pub htab : T
  pub key_array : List Str

module _ {T : Type 0} (ops : Ops T) where
  -- sky_hash_create; `size + 10` on uint32_t
  unfoldable pub create : (size : ℕ) → Memory → Run (Option (Hash T) × Memory)
  create size m =
      let (granted, m₁) = alloc m in
      if granted
      then (elim (ops.hcreate ((size + 10) % 0x1_0000_0000)) [
        | none ↦ do m₂ ← free m₁; ok (none, m₂)
        | some t ↦ ok (some (record { htab = t; key_array = [] }), m₁)
      ])
      else ok (none, m₁)

  -- the else branch of sky_hash_add: whether an entry was made
  unfoldable pub add_new : Hash T → Str → (value : ℕ) → Memory → Run (Bool × Hash T × Memory)
  add_new h key value m =
      let (granted, m₁) = alloc m in
      if granted
      then (let (granted', m₂) = alloc m₁ in
          if granted'
          then (elim (ops.enter h.htab key value) [
            | none ↦ do m₃ ← free m₂; m₄ ← free m₃; ok (false, h, m₄)
            | some t ↦ ok (true, record { htab = t; key_array = key ∷ h.key_array }, m₂)
          ])
          else (do m₃ ← free m₂; ok (false, h, m₃)))
      else ok (false, h, m₁)

  -- sky_hash_add: whether the result is not NULL
  unfoldable pub add :
      Hash T → (key : Option Str) → (value : ℕ) → Memory → Run (Bool × Hash T × Memory)
  unfolding add_new
  add h none value m = ok (false, h, m)
  add h (some []) value m = ok (false, h, m)
  add h (some (c ∷ cs)) value m = elim (ops.search h.htab (c ∷ cs)) [
    | some old ↦ ok (true, record h { htab = ops.assign h.htab (c ∷ cs) value }, m)
    | none ↦ add_new h (c ∷ cs) value m
  ]

  -- sky_hash_find: `*value` where the result is true
  unfoldable pub find : Hash T → (key : Option Str) → Option ℕ
  find h none = none
  find h (some key) = ops.search h.htab key

-- the loop of sky_hash_destroy
unfoldable pub free_keys : List Str → Memory → Run Memory
free_keys [] m = ok m
free_keys (k ∷ ks) m = do m₁ ← free m; m₂ ← free m₁; free_keys ks m₂

-- sky_hash_destroy; the memory of the table itself is not counted
unfoldable pub destroy : {T : Type 0} → Option (Hash T) → Memory → Run Memory
unfolding free_keys
destroy none m = ok m
destroy (some h) m = do m₁ ← free_keys h.key_array m; free m₁
