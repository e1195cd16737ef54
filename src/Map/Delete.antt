-- ===== src/Map/Delete.antt =====
-- sky_map_delete of sky/src/sky_map.c against the entries of the map.
use mathlib.Core.Path.{subst}
use skysdk.Base.{
  ℕ, ◌+◌, ◌≡◌, refl, ap, sym, ◌∙◌, inl, inr, some, Str, length, if◌then◌else◌, Returns, returns,
  result, arith,
}
use skysdk.Memory.{Memory}
use skysdk.Map.{MapData, map_ok, map_keynotfound}
use skysdk.Map.Api.{Outcome, state, delete_valid, delete}
use skysdk.Map.Rep.{Entries, key_list, Policy, IsValid, IsMap, contains, erase}
use skysdk.Map.Growth.{filter_after}
use skysdk.Map.Remove.{remove_at-IsValid}
use skysdk.Map.Locate.{locate, Distinct-erase}
use skysdk.Map.Add.{find_key-index}

module _ (g : Policy) (other : ℕ) (es : Entries) (key : Str) (d : MapData) (m : Memory) where
  abbrev pub DeleteSpec : Outcome → Type 0
  DeleteSpec r =
      if contains key (key_list es)
      then ((d' : MapData) × (r.0 ≡ map_ok)
          × (r.1 ≡ some d')
          × IsMap g other (erase key es) d' r.2
          × (d'.filter ≡ filter_after (erase key es) d.filter))
      else r ≡ (map_keynotfound, some d, m)

  -- On a map with the entries es and no key twice, sky_map_delete returns. For a known key it
  -- reports MAP_OK, the entry is gone and the others keep their order, whether or not the arrays
  -- could be shrunk, and the filter is gone if no entry is left. For an unknown key it reports
  -- MAP_KEYNOTFOUND, and map and memory are as they were.
  pub delete_lem : IsMap g other es d m → Returns DeleteSpec (delete (some d) (some key) m)
  unfolding delete
  delete_lem is = elim (locate 0 key es) [
    | inl l ↦
        let valid = subst (λ z. IsValid g other z (state d m)) l.parts is.valid in
        let (s, run, done) = result (
          remove_at-IsValid g other l.pre l.entry l.post (state d m) (0 + length l.pre)
            (omega arith) valid) in
        rw (delete_valid, find_key-index g other es key (state d m) is.valid, l.index, run)
          (returns (
            rw l.known (
              s.map,
              refl,
              refl,
              record {
                valid = subst (λ z. IsValid g other z s) (sym l.erased) done.0;
                distinct = Distinct-erase key es is.distinct;
              },
              done.1 ∙ ap (λ z. filter_after z d.filter) (sym l.erased),
            )))
    | inr l ↦
        rw (delete_valid, find_key-index g other es key (state d m) is.valid, l.index)
          (returns (rw l.unknown refl))
  ]
