-- ===== src/Map/Add.antt =====
-- sky_map_add (sky/src/sky_map.c) against the entries of the map.
use mathlib.Core.Path.{subst}
use mathlib.Core.List.{map-append}
use skysdk.Base.{
  ℕ, ◌≡◌, refl, sym, ◌∙◌, ◌⊎◌, inl, inr, Option, true, false, some, [], ◌∷◌, ◌++◌, Str, length-map,
  ok, ◌==◌, if◌then◌else◌, Returns, returns, result, mono, ◌>>=◌, arith, Bool-cases,
}
use skysdk.Memory.{Memory}
use skysdk.Map.{Filter, MapData, State, map_ok, map_error, map_keyexists, map_filter_reject}
use skysdk.Map.Entries.{find_key}
use skysdk.Map.Api.{Outcome, outcome, state, rejects, add_or_error, add_valid, add}
use skysdk.Map.Rep.{
  Entries, key_list, Policy, Refuses, IsValid, IsMap, Distinct, contains, index_from,
}
use skysdk.Map.Vectors.{find_at}
use skysdk.Map.Growth.{filter_after}
use skysdk.Map.Insert.{insert_new-Inserted}
use skysdk.Map.Locate.{locate, Distinct-append}

-- The map after a call that may only fail for want of memory: the entries `es'` and the same filter
-- on success; on failure a request was refused, the entries are the old ones, and the filter is the
-- old one or, where there are no entries, perhaps gone.
abbrev pub Settled : Policy → ℕ → Entries → Entries → Option Filter → Outcome → Type 0
Settled g other es es' f (r, h, m) =
    (d : MapData) × (h ≡ some d)
    × (((r ≡ map_ok) × IsMap g other es' d m × (d.filter ≡ f))
        ⊎ ((r ≡ map_error)
            × Refuses g
            × IsMap g other es d m
            × ((d.filter ≡ f) ⊎ (d.filter ≡ filter_after es f))))

pub find_key-index :
    (g : Policy) (other : ℕ) (es : Entries) (key : Str) (s : State)
    → IsValid g other es s
    → find_key s.map key ≡ ok (index_from 0 key (key_list es))
unfolding find_key
find_key-index g other es key s v =
    find_at (key_list es) s.map.count (v.rep.counted ∙ sym (length-map (λ e. e.0) es)) s.map.keys
      key v.rep.keys

module _ (g : Policy) (other : ℕ) (es : Entries) (key value : Str) (d : MapData) (m : Memory) where
  Distinct-snoc :
      Distinct (key_list es)
      → contains key (key_list es) ≡ false
      → Distinct (key_list (es ++ (key, value) ∷ []))
  Distinct-snoc old new =
      subst Distinct (sym (map-append (λ e. e.0) es ((key, value) ∷ [])))
        (Distinct-append key (key_list es) old new)

  pub add_or_error-Settled :
      IsMap g other es d m
      → contains key (key_list es) ≡ false
      → Returns
          (Settled g other es (es ++ (key, value) ∷ []) d.filter)
          (add_or_error (state d m) key value >>= outcome)
  unfolding add_or_error
  add_or_error-Settled is new =
      let (r, run, done) = result (insert_new-Inserted g other es key value (state d m) is.valid) in
      rw (run, add_or_error)
        (elim done [
          | inl (zero_code, valid, same) ↦
              let e : (r.0 == 0) ≡ true = ground arith in
              rw e (
                returns (
                  r.1.map,
                  refl,
                  inl (
                    refl,
                    record { valid = valid; distinct = Distinct-snoc is.distinct new },
                    same,
                  ),
                ))
          | inr (line, refused, valid, same) ↦
              let e : (r.0 == 0) ≡ false = ground arith in
              rw e (
                returns (
                  r.1.map,
                  refl,
                  inr (refl, refused, record { valid = valid; distinct = is.distinct }, same),
                ))
        ])

  abbrev pub AddSpec : Outcome → Type 0
  AddSpec r =
      if contains key (key_list es)
      then r ≡ (map_keyexists, some d, m)
      else if rejects d.filter key value
      then r ≡ (map_filter_reject, some d, m)
      else Settled g other es (es ++ (key, value) ∷ []) d.filter r

  -- On a map with the entries es and no key twice, sky_map_add returns. For a known key it reports
  -- MAP_KEYEXISTS, and for a new entry that the filter rejects MAP_FILTER_REJECT; both leave map
  -- and memory as they were. Otherwise either it reports MAP_OK, the new entry stands behind the
  -- others, and the filter is kept; or it reports MAP_ERROR, some request for memory is refused,
  -- the entries are as they were, and the filter is kept or, where there are no entries, perhaps
  -- gone.
  pub add_lem : IsMap g other es d m → Returns AddSpec (add (some d) (some key) (some value) m)
  unfolding add
  add_lem is = elim (locate 0 key es) [
    | inl l ↦
        rw (add_valid, find_key-index g other es key (state d m) is.valid, l.index)
          (returns (rw l.known refl))
    | inr l ↦
        rw (add_valid, find_key-index g other es key (state d m) is.valid, l.index)
          (elim (Bool-cases (rejects d.filter key value)) [
            | inl no_entry ↦ rw no_entry (returns (rw (l.unknown, no_entry) refl))
            | inr entry ↦
                rw entry (mono (add_or_error-Settled is l.unknown) (λ r s. rw (l.unknown, entry) s))
          ])
  ]
