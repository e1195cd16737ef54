-- ===== src/Map/Replace.antt =====
-- sky_map_addorupdate (sky/src/sky_map.c) against the entries of the map.
use mathlib.Core.Path.{subst}
use skysdk.Base.{
  ℕ, ◌+◌, ◌≡◌, refl, ap, sym, ◌∙◌, inl, inr, some, List, [], ◌∷◌, ◌++◌, Str, length, length-map,
  if◌then◌else◌, Returns, returns, mono, ◌>>=◌, arith, Bool-cases,
}
use skysdk.Memory.{Memory, realloc}
use skysdk.Map.{Slot, Vector, MapData, str, map_ok, map_filter_reject}
use skysdk.Map.Api.{
  Outcome, outcome, state, rejects, realloc_slot, replace_value, addorupdate_valid, addorupdate,
}
use skysdk.Map.Rep.{
  Entries, key_list, value_list, strs, Holds, Policy, IsMap, Distinct, contains, update,
}
use skysdk.Map.Vectors.{read_at, write_at}
use skysdk.Map.Storage.{block}
use skysdk.Map.Insert.{refusal}
use skysdk.Map.Remove.{Holds-at, Holds-from}
use skysdk.Map.Locate.{Located, locate, update-keys, length-update, owned-length}
use skysdk.Map.Add.{Settled, find_key-index, add_or_error-Settled}

module _ (g : Policy) (other : ℕ) (es : Entries) (key value : Str) (d : MapData) (m : Memory) where
  -- sky_map_addorupdate on a key that is there
  -- the values with the new string in its place
  new_values : Located 0 key es → List Slot → List Slot
  new_values l t = strs (value_list l.pre) ++ str value ∷ (strs (value_list l.post) ++ t)

  updated-IsMap :
      (m' : Memory) (l : Located 0 key es) (t : List Slot)
      → IsMap g other es d m
      → m'.grants ≡ m.grants
      → m'.live ≡ m.live
      → IsMap g other (update key value es) (record d { values = some (new_values l t) }) m'
  unfolding new_values
  updated-IsMap m' l t is p b = record {
    valid = record {
      policy = p ∙ is.valid.policy;
      rep = record {
        counted = is.valid.rep.counted ∙ sym (length-update key value es);
        keys = subst (λ z. Holds z d.keys) (sym (update-keys key value es)) is.valid.rep.keys;
        values =
            subst (λ z. Holds (value_list z) (some (new_values l t))) (sym (l.updated value))
              (Holds-from (λ e. e.1) l.pre (l.entry.0, value) l.post (some (new_values l t)) t
                refl);
      };
      blocks =
          b
          ∙ (is.valid.blocks
              ∙ ap (λ n. other + n)
                  (owned-length es (update key value es) (sym (length-update key value es))));
    };
    distinct = subst Distinct (sym (update-keys key value es)) is.distinct;
  }

  same-IsMap :
      (m' : Memory) (v : Vector)
      → IsMap g other es d m
      → d.values ≡ v
      → m'.grants ≡ m.grants
      → m'.live ≡ m.live
      → IsMap g other es (record d { values = v }) m'
  same-IsMap m' v is ve p b = record {
    valid = record {
      policy = p ∙ is.valid.policy;
      rep = record {
        counted = is.valid.rep.counted;
        keys = is.valid.rep.keys;
        values = subst (λ w. Holds (value_list es) w) ve is.valid.rep.values;
      };
      blocks = b ∙ is.valid.blocks;
    };
    distinct = is.distinct;
  }

  replace_value-Settled :
      (i : ℕ)
      → IsMap g other es d m
      → (l : Located 0 key es) → i ≡ length l.pre
      → Returns
          (Settled g other es (update key value es) d.filter)
          (replace_value (state d m) i value >>= outcome)
  unfolding replace_value realloc new_values
  replace_value-Settled i is l at =
      let before = subst (λ z. Holds (value_list z) d.values) l.parts is.valid.rep.values in
      let (t, ve) = Holds-at (λ e. e.1) l.pre l.entry l.post d.values before in
      let v_at : i ≡ length (value_list l.pre) = at ∙ sym (length-map (λ e. e.1) l.pre) in
      let old = str l.entry.1 in
      let rest = strs (value_list l.post) ++ t in
      let m' = record m { requests = m.requests + 1 } in
      rw (ve, replace_value, block, read_at (value_list l.pre) i v_at old rest, realloc_slot)
        (elim (Bool-cases (m.grants m.requests)) [
          | inl yes_g ↦
              rw (yes_g, write_at (value_list l.pre) i v_at old (str value) rest)
                (returns {a = (map_ok, some (record d { values = some (new_values l t) }), m')}
                  (_, refl, inl (refl, updated-IsMap m' l t is refl refl, refl)))
          | inr no_g ↦ rw no_g (
              returns (
                _,
                refl,
                inr (
                  refl,
                  refusal g m is.valid.policy no_g,
                  same-IsMap m' _ is ve refl refl,
                  inl refl,
                ),
              ))
        ])

  abbrev pub AddOrUpdateSpec : Outcome → Type 0
  AddOrUpdateSpec r =
      if rejects d.filter key value
      then r ≡ (map_filter_reject, some d, m)
      else Settled g other es
          (if contains key (key_list es) then update key value es else es ++ (key, value) ∷ [])
          d.filter r

  -- On a map with the entries es and no key twice, sky_map_addorupdate returns. If the filter
  -- rejects the entry, it reports MAP_FILTER_REJECT, and map and memory are as they were.
  -- Otherwise either it reports MAP_OK, the value of a known key is replaced or a new entry stands
  -- behind the others, and the filter is kept; or it reports MAP_ERROR, some request for memory is
  -- refused, the entries are as they were, and the filter is kept or, where there are no entries,
  -- perhaps gone. The map owns as many blocks as its entries need.
  pub addorupdate_lem :
      IsMap g other es d m
      → Returns AddOrUpdateSpec (addorupdate (some d) (some key) (some value) m)
  unfolding addorupdate
  addorupdate_lem is = elim (Bool-cases (rejects d.filter key value)) [
    | inl no_entry ↦ rw (no_entry, addorupdate_valid) (returns (rw no_entry refl))
    | inr entry ↦ elim (locate 0 key es) [
      | inl l ↦
          rw (addorupdate_valid, entry, find_key-index g other es key (state d m) is.valid, l.index)
            (mono (replace_value-Settled (0 + length l.pre) is l (omega arith))
              (λ r s. rw (entry, l.known) s))
      | inr l ↦
          rw (addorupdate_valid, entry, find_key-index g other es key (state d m) is.valid, l.index)
            (mono (add_or_error-Settled g other es key value d m is l.unknown)
              (λ r s. rw (entry, l.unknown) s))
    ]
  ]
