-- ===== src/Map/Laws.antt =====
-- Reads of a map behind a change of it (sky/src/sky_map.c).
use mathlib.Core.Path.{subst}
use skysdk.Base.{
  ℕ, ◌≡◌, inl, inr, Bool, Option, true, false, none, some, Str, str_eq, ok, if◌then◌else◌, arith,
  Bool-cases, returns_at,
}
use skysdk.Memory.{Memory}
use skysdk.Map.{Filter, MapData, MapResult, map_keynotfound, map_ok, map_filter_reject}
use skysdk.Map.Api.{Outcome, rejects, addorupdate, delete, getvaluefromkey}
use skysdk.Map.Rep.{Entries, key_list, Policy, IsMap, contains, erase}
use skysdk.Map.Growth.{filter_after}
use skysdk.Map.Add.{Settled}
use skysdk.Map.Replace.{addorupdate_lem}
use skysdk.Map.Delete.{delete_lem}
use skysdk.Map.Read.{getvaluefromkey_lem}
use skysdk.Map.Lookup.{put, lookup-put, lookup-erase}

Settled-ok :
    (g : Policy) (other : ℕ) (es es' : Entries) (f : Option Filter) (d : MapData) (m : Memory)
    → Settled g other es es' f (map_ok, some d, m)
    → IsMap g other es' d m
Settled-ok g other es es' f d m (d', same, inl (good, is, filter)) =
    let e : d' ≡ d = cc in subst (λ z. IsMap g other es' z m) e is
Settled-ok g other es es' f d m (d', same, inr (bad, refused, is, filter)) = absurd (cc)

module _ (g : Policy) (other : ℕ) (es : Entries) (key value : Str) (d : MapData) (m : Memory) where
  -- the entries behind a call that reports MAP_OK
  addorupdate-entries :
      {d' : MapData} {m' : Memory}
      → IsMap g other es d m
      → addorupdate (some d) (some key) (some value) m ≡ ok (map_ok, some d', m')
      → IsMap g other (put key value es) d' m'
  unfolding put
  addorupdate-entries {d'} {m'} is run =
      let spec = returns_at (addorupdate_lem g other es key value d m is) run in
      elim (Bool-cases (rejects d.filter key value)) [
        | inl no_entry ↦
            let e : ◌≡◌ {A = Outcome} (map_ok, some d', m') (map_filter_reject, some d, m) =
              rw no_entry at spec in
            absurd (ground arith)
        | inr entry ↦
            let settled : Settled g other es (put key value es) d.filter (map_ok, some d', m') =
              rw entry at spec in
            Settled-ok g other es (put key value es) d.filter d' m' settled
      ]

  -- the new value for the key, and every other key's as before
  addorupdate-getvaluefromkey :
      {d' : MapData} {m' : Memory}
      → IsMap g other es d m
      → addorupdate (some d) (some key) (some value) m ≡ ok (map_ok, some d', m')
      → (j : Str)
      → getvaluefromkey (some d') (some j)
        ≡ (if str_eq key j then ok (some value) else getvaluefromkey (some d) (some j))
  addorupdate-getvaluefromkey {d'} {m'} is run j =
      rw
        (
          getvaluefromkey_lem g other _ j d' m' (addorupdate-entries is run),
          getvaluefromkey_lem g other es j d m is,
          lookup-put key value j es,
        )
        (elim (Bool-cases (str_eq key j)) [ inl same ↦ rw same | inr ne ↦ rw ne ])

-- what DeleteSpec says of a call that reports MAP_OK
delete_ok :
    (g : Policy) (other : ℕ) (es : Entries) (key : Str) (d d' : MapData) (m m' : Memory) (b : Bool)
    → (if b
        then ((d'' : MapData) × ◌≡◌ {A = MapResult} map_ok map_ok
            × (some d' ≡ some d'')
            × IsMap g other (erase key es) d'' m'
            × (d''.filter ≡ filter_after (erase key es) d.filter))
        else ◌≡◌ {A = Outcome} (map_ok, some d', m') (map_keynotfound, some d, m))
    → IsMap g other (erase key es) d' m'
delete_ok g other es key d d' m m' true (d'', good, same, is, filter) =
    let e : d'' ≡ d' = cc in subst (λ z. IsMap g other (erase key es) z m') e is
delete_ok g other es key d d' m m' false bad = absurd (ground arith)

module _ (g : Policy) (other : ℕ) (es : Entries) (key : Str) (d : MapData) (m : Memory) where
  -- NULL for the key, and every other key's value as before
  delete-getvaluefromkey :
      {d' : MapData} {m' : Memory}
      → IsMap g other es d m
      → delete (some d) (some key) m ≡ ok (map_ok, some d', m')
      → (j : Str)
      → getvaluefromkey (some d') (some j)
        ≡ (if str_eq key j then ok none else getvaluefromkey (some d) (some j))
  delete-getvaluefromkey {d'} {m'} is run j =
      let spec = returns_at (delete_lem g other es key d m is) run in
      let left = delete_ok g other es key d d' m m' (contains key (key_list es)) spec in
      rw
        (
          getvaluefromkey_lem g other (erase key es) j d' m' left,
          getvaluefromkey_lem g other es j d m is,
          lookup-erase key j es is.distinct,
        )
        (elim (Bool-cases (str_eq key j)) [ inl same ↦ rw same | inr ne ↦ rw ne ])
