-- ===== src/Map/Read.antt =====
-- sky_map_containskey, sky_map_containsvalue and sky_map_getvaluefromkey of sky/src/sky_map.c.
use mathlib.Core.Path.{subst}
use skysdk.Base.{
  ℕ, suc, ◌+◌, ◌≡◌, refl, sym, ◌∙◌, inl, inr, true, some, List, [], ◌∷◌, ◌++◌, Str, str_eq, length,
  length-map, ok, arith, Bool-cases,
}
use skysdk.Memory.{Memory}
use skysdk.Map.{MapData, map_ok, str}
use skysdk.Map.Storage.{block}
use skysdk.Map.Entries.{find_value}
use skysdk.Map.Api.{is_some, state, containskey, containsvalue, value_at, getvaluefromkey}
use skysdk.Map.Rep.{
  Entries, key_list, value_list, strs, Holds, Policy, IsMap, contains, index_from, lookup,
}
use skysdk.Map.Vectors.{find_at, read_at}
use skysdk.Map.Remove.{Holds-at}
use skysdk.Map.Locate.{locate}
use skysdk.Map.Add.{find_key-index}

is_some-index_from :
    (i : ℕ) (key : Str) (ss : List Str) → is_some (index_from i key ss) ≡ contains key ss
unfolding index_from contains
is_some-index_from i key [] = refl
is_some-index_from i key (s ∷ ss) = elim (Bool-cases (str_eq s key)) [
  | inl same ↦ rw same
  | inr other ↦ rw other (is_some-index_from (suc i) key ss)
]

module _ (g : Policy) (other : ℕ) (es : Entries) (text : Str) (d : MapData) (m : Memory) where
  -- On a map with the entries es and no key twice, sky_map_containskey reports MAP_OK and sets the
  -- result to whether the text is a key.
  containskey_lem :
      IsMap g other es d m
      → containskey (some d) (some text) true ≡ ok (map_ok, some (contains text (key_list es)))
  unfolding containskey
  containskey_lem is =
      rw (
        find_key-index g other es text (state d m) is.valid,
        is_some-index_from 0 text (key_list es),
      )

  -- On a map with the entries es and no key twice, sky_map_containsvalue reports MAP_OK and sets
  -- the result to whether the text is a value.
  containsvalue_lem :
      IsMap g other es d m
      → containsvalue (some d) (some text) true ≡ ok (map_ok, some (contains text (value_list es)))
  unfolding containsvalue find_value
  containsvalue_lem is =
      let at = is.valid.rep.counted ∙ sym (length-map (λ e. e.1) es) in
      rw (
        find_at (value_list es) d.count at d.values text is.valid.rep.values,
        is_some-index_from 0 text (value_list es),
      )

  -- On a map with the entries es and no key twice, sky_map_getvaluefromkey returns the value of
  -- the key, or NULL for an unknown key.
  pub getvaluefromkey_lem :
      IsMap g other es d m → getvaluefromkey (some d) (some text) ≡ ok (lookup text es)
  unfolding getvaluefromkey
  getvaluefromkey_lem is = elim (locate 0 text es) [
    | inl l ↦
        let values = subst (λ z. Holds (value_list z) d.values) l.parts is.valid.rep.values in
        let (t, ve) = Holds-at (λ e. e.1) l.pre l.entry l.post d.values values in
        let at : 0 + length l.pre ≡ length (value_list l.pre) =
          omega (arith, length-map {0, 0} (λ (e : Str × Str). e.1) l.pre) in
        rw (
          find_key-index g other es text (state d m) is.valid,
          l.index,
          l.found,
          value_at,
          ve,
          block,
          read_at (value_list l.pre) (0 + length l.pre) at (str l.entry.1)
              (strs (value_list l.post) ++ t),
        )
    | inr l ↦ rw (find_key-index g other es text (state d m) is.valid, l.index, l.absent)
  ]

  -- On a map with the entries es and no key twice, sky_map_getvaluefromkey returns the value of
  -- the key, or NULL for an unknown key; sky_map_containskey and sky_map_containsvalue report
  -- MAP_OK and set the result to whether the text is a key and a value.
  pub read_lem :
      IsMap g other es d m
      → (getvaluefromkey (some d) (some text) ≡ ok (lookup text es))
        × (containskey (some d) (some text) true ≡ ok (map_ok, some (contains text (key_list es))))
        × (containsvalue (some d) (some text) true
            ≡ ok (map_ok, some (contains text (value_list es))))
  read_lem is = (getvaluefromkey_lem is, containskey_lem is, containsvalue_lem is)
