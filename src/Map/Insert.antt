-- ===== src/Map/Insert.antt =====
-- insertNewKeyValue (sky/src/sky_map.c).
use mathlib.Core.List.{append-nil, map-append}
use mathlib.Core.Path.{subst}
use skysdk.Base.{
  ℕ, suc, ◌+◌, ◌-◌, ◌*◌, ◌≡◌, refl, ap, sym, ◌∙◌, ◌⊎◌, inl, inr, ◌≢◌, Option, true, false, some,
  List, [], ◌∷◌, ◌++◌, Str, length, length-map, length-append, ok, Returns, returns, bind, ◌==◌,
  arith, Bool-cases, lt→ltb,
}
use skysdk.Base.Int.{pos}
use skysdk.Memory.{Memory, alloc, free_lem}
use skysdk.Map.{Slot, null, str, Vector, Filter, MapData, State}
use skysdk.Map.Storage.{mallocandstrcpy_s, strcpy_s, block, free_slot}
use skysdk.Map.Entries.{store_copy, insert_value, insert_key, insert_new}
use skysdk.Map.Rep.{
  Entries, key_list, value_list, strs, Holds, Represents, owned, Policy, Refuses, IsValid,
}
use skysdk.Map.Vectors.{write_at, read_at}
use skysdk.Map.Growth.{HasRoom, filter_after, increase_storage-Increased, decrease_storage-IsValid}

-- Copying a string costs a block, or is refused and leaves `*destination`.
abbrev pub Copied : Slot → Str → Memory → Type 0
Copied d text m =
    ((m' : Memory) × (mallocandstrcpy_s (some d) (some text) m ≡ ok (pos 12, some d, m'))
      × (m.grants m.requests ≡ false)
      × (m'.grants ≡ m.grants)
      × (m'.live ≡ m.live))
    ⊎ ((m' : Memory) × (mallocandstrcpy_s (some d) (some text) m ≡ ok (pos 0, some (str text), m'))
        × (m'.grants ≡ m.grants)
        × (m'.live ≡ m.live + 1))

pub mallocandstrcpy_s-Copied : (d : Slot) (text : Str) (m : Memory) → Copied d text m
unfolding mallocandstrcpy_s strcpy_s alloc
mallocandstrcpy_s-Copied d text m = elim (Bool-cases (m.grants m.requests)) [
  | inl yes_g ↦ inr (
    record m { requests = m.requests + 1; live = m.live + 1 },
    rw (yes_g, alloc, lt→ltb (length text) (length text + 1) (omega arith)),
    refl,
    refl,
  )
  | inr no_g ↦ inl (record m { requests = m.requests + 1 }, rw (no_g, alloc), no_g, refl, refl)
]

pub refusal : (g : Policy) (m : Memory) → m.grants ≡ g → m.grants m.requests ≡ false → Refuses g
refusal g m p no_g = (m.requests, ap (λ h. h m.requests) (sym p) ∙ no_g)

-- The same at the last slot of an array with room.
abbrev Stored : List Str → ℕ → Str → Memory → Type 0
Stored ss i text m =
    ((m' : Memory) × (store_copy (some (strs ss ++ null ∷ [])) i text m
        ≡ ok (pos 12, strs ss ++ null ∷ [], m'))
      × (m.grants m.requests ≡ false)
      × (m'.grants ≡ m.grants)
      × (m'.live ≡ m.live))
    ⊎ ((m' : Memory) × (store_copy (some (strs ss ++ null ∷ [])) i text m
          ≡ ok (pos 0, strs ss ++ str text ∷ [], m'))
        × (m'.grants ≡ m.grants)
        × (m'.live ≡ m.live + 1))

store_copy-Stored :
    (ss : List Str) (i : ℕ) (text : Str) (m : Memory) → i ≡ length ss → Stored ss i text m
unfolding store_copy
store_copy-Stored ss i text m at = elim (mallocandstrcpy_s-Copied null text m) [
  | inl (m', refused, no_g, p, same) ↦ inl (
    m',
    rw (store_copy, read_at ss i at null [], refused, write_at ss i at null null []),
    no_g,
    p,
    same,
  )
  | inr (m', copied, p, more) ↦ inr (
    m',
    rw (store_copy, read_at ss i at null [], copied, write_at ss i at null (str text) []),
    p,
    more,
  )
]

strs-snoc : (ss : List Str) (s : Str) → strs (ss ++ s ∷ []) ++ [] ≡ strs ss ++ str s ∷ []
strs-snoc ss s = append-nil _ ∙ map-append str ss (s ∷ [])

Holds-snoc :
    (ss : List Str) (s : Str) (v : Vector)
    → v ≡ some (strs ss ++ str s ∷ [])
    → Holds (ss ++ s ∷ []) v
Holds-snoc [] s v e = ([], e)
Holds-snoc (x ∷ ss) s v e = ([], e ∙ ap some (sym (strs-snoc (x ∷ ss) s)))

Represents-snoc :
    (es : Entries) (k v : Str) (d : MapData)
    → d.count ≡ suc (length es)
    → d.keys ≡ some (strs (key_list es) ++ str k ∷ [])
    → d.values ≡ some (strs (value_list es) ++ str v ∷ [])
    → Represents (es ++ (k, v) ∷ []) d
Represents-snoc es k v d ce ke ve = record {
  counted = omega (arith, length-append {0} es ((k, v) ∷ []));
  keys =
      subst (λ l. Holds l d.keys) (sym (map-append (λ e. e.0) es ((k, v) ∷ [])))
        (Holds-snoc (key_list es) k _ ke);
  values =
      subst (λ l. Holds l d.values) (sym (map-append (λ e. e.1) es ((k, v) ∷ [])))
        (Holds-snoc (value_list es) v _ ve);
}

owned-snoc : (es : Entries) (e : Str × Str) → owned (es ++ e ∷ []) ≡ 5 + 2 * length es
owned-snoc [] e = refl
owned-snoc (x ∷ es) e = omega (arith, length-append {0} es (e ∷ []))

-- What insertNewKeyValue leaves for the entries, a new entry and the filter before the call.
abbrev pub Inserted : Policy → ℕ → Entries → Str → Str → Option Filter → ℕ × State → Type 0
Inserted g other es k v f (code, s) =
    ((code ≡ 0) × IsValid g other (es ++ (k, v) ∷ []) s × (s.map.filter ≡ f))
    ⊎ ((code ≢ 0)
        × Refuses g
        × IsValid g other es s
        × ((s.map.filter ≡ f) ⊎ (s.map.filter ≡ filter_after es f)))

module _ (g : Policy) (other : ℕ) (es : Entries) (k v : Str) (s : State) where
  -- the state that Map_IncreaseStorageKeysValues left, with the new key in its slot
  insert_value-Inserted :
      s.map.count ≡ suc (length es)
      → s.map.keys ≡ some (strs (key_list es) ++ str k ∷ [])
      → s.map.values ≡ some (strs (value_list es) ++ null ∷ [])
      → s.mem.grants ≡ g
      → s.mem.live ≡ other + 4 + 2 * length es
      → Returns (Inserted g other es k v s.map.filter) (insert_value s v)
  unfolding insert_value
  insert_value-Inserted ce ke ve q b =
      let last : s.map.count - 1 ≡ length (value_list es) =
        omega (arith, length-map {0, 0} (λ (e : Str × Str). e.1) es) in
      let last_key : s.map.count - 1 ≡ length (key_list es) =
        omega (arith, length-map {0, 0} (λ (e : Str × Str). e.0) es) in
      elim (store_copy-Stored (value_list es) (s.map.count - 1) v s.mem last) [
        | inl (m', refused, no_g, p, same) ↦
            rw
              (
                ve,
                refused,
                insert_value,
                ke,
                block,
                read_at (key_list es) _ last_key (str k) [],
                free_slot,
                free_lem m' (other + 3 + 2 * length es) (omega arith),
              )
              (bind
                (decrease_storage-IsValid g other es _ (str k ∷ []) (null ∷ []) ce (p ∙ q) refl refl
                  refl)
                λ t (valid, filter).
                  returns (inr (ground arith, refusal g s.mem q no_g, valid, inr filter)))
        | inr (m', copied, p, more) ↦
            rw (ve, copied, insert_value)
              (returns (
                inl (
                  refl,
                  record {
                    policy = p ∙ q;
                    rep = Represents-snoc es k v _ ce ke refl;
                    blocks = omega (arith, owned-snoc es (k, v));
                  },
                  refl,
                )))
      ]

module _ (g : Policy) (other : ℕ) (es : Entries) (k v : Str) (s : State) where
  -- the state that Map_IncreaseStorageKeysValues left
  insert_key-Inserted :
      HasRoom g other es s → Returns (Inserted g other es k v s.map.filter) (insert_key s k v)
  unfolding insert_key
  insert_key-Inserted room =
      let last : s.map.count - 1 ≡ length (key_list es) =
        omega (arith, room.counted, length-map {0, 0} (λ (e : Str × Str). e.0) es) in
      elim (store_copy-Stored (key_list es) (s.map.count - 1) k s.mem last) [
        | inl (m', refused, no_g, p, same) ↦
            rw (room.keys, refused, insert_key)
              (bind
                (decrease_storage-IsValid g other es _ (null ∷ []) (null ∷ []) room.counted
                  (p ∙ room.policy) refl room.values (same ∙ room.blocks))
                λ t (valid, filter).
                  returns (inr (ground arith, refusal g s.mem room.policy no_g, valid, inr filter)))
        | inr (m', copied, p, more) ↦
            rw (room.keys, copied, insert_key)
              (insert_value-Inserted g other es k v _ room.counted refl room.values
                (p ∙ room.policy) (omega (arith, more, room.blocks)))
      ]

-- On a valid map the insertion never faults. It appends the entry, or it reports a line and the map
-- holds the entries that it held and owns the same number of blocks.
pub insert_new-Inserted :
    (g : Policy) (other : ℕ) (es : Entries) (k v : Str) (s : State)
    → IsValid g other es s
    → Returns (Inserted g other es k v s.map.filter) (insert_new s k v)
unfolding insert_new
insert_new-Inserted g other es k v s valid =
    bind (increase_storage-Increased g other es s valid) λ (code, s') done. elim done [
      | inl (zero_code, room, same) ↦
          let e : (code == 0) ≡ true = ground arith in
          rw e (
            subst (λ f. Returns (Inserted g other es k v f) (insert_key s' k v)) same
              (insert_key-Inserted g other es k v s' room))
      | inr (line, no_g, kept, same) ↦
          let e : (code == 0) ≡ false = ground arith in
          rw e (returns (inr (ground arith, no_g, kept, inl same)))
    ]
