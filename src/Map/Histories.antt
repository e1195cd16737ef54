-- ===== src/Map/Histories.antt =====
-- Any history of calls on a map (sky/src/sky_map.c).
use mathlib.Core.Path.{subst}
use skysdk.Base.{
  ℕ, ◌≡◌, refl, ap, sym, ◌∙◌, inl, inr, true, false, Bool-cases, Option, none, some, List, [], ◌∷◌,
  ◌++◌, if◌then◌else◌, ok, Returns, returns, bind, mono, result,
}
use skysdk.Memory.{Memory}
use skysdk.Map.{
  Filter, MapData, MapResult, map_ok, map_keyexists, map_keynotfound, map_filter_reject,
}
use skysdk.Map.Api.{Outcome, create, rejects}
use skysdk.Map.Rep.{Entries, key_list, Policy, IsMap, contains, update, erase}
use skysdk.Map.Growth.{filter_after}
use skysdk.Map.Add.{Settled, add_lem}
use skysdk.Map.Replace.{addorupdate_lem}
use skysdk.Map.Delete.{delete_lem}
use skysdk.Map.Create.{map_create_lem}
use skysdk.Map.Destroy.{destroy_lem}
use skysdk.Map.Calls.{
  Call, add_call, update_call, delete_call, perform, perform_all, History, lifetime, answer,
  answers,
}

-- a call leaves a map, whatever its result
abbrev Kept : Policy → ℕ → Outcome → Type 0
Kept g other (r, h, m) = (d : MapData) × (h ≡ some d) × ((es : Entries) × IsMap g other es d m)

module _ (g : Policy) (other : ℕ) (es : Entries) (d : MapData) (m : Memory)
    (is : IsMap g other es d m) where
  same-Kept : (r : MapResult) (o : Outcome) → o ≡ (r, some d, m) → Kept g other o
  same-Kept r o e = subst (Kept g other) (sym e) (d, refl, (es, is))

  Settled-Kept :
      (es' : Entries) (f : Option Filter) (o : Outcome)
      → Settled g other es es' f o
      → Kept g other o
  Settled-Kept es' f o (d', h, rest) = elim rest [
    | inl done ↦ (d', h, (es', done.1))
    | inr failed ↦ (d', h, (es, failed.2))
  ]

  perform-Kept : (c : Call) → Returns (Kept g other) (perform c d m)
  perform-Kept (add_call key value) = mono (add_lem g other es key value d m is) (λ o spec.
      elim (Bool-cases (contains key (key_list es))) [
        | inl known ↦ same-Kept map_keyexists o (rw known at spec)
        | inr new ↦ elim (Bool-cases (rejects d.filter key value)) [
          | inl no_entry ↦ same-Kept map_filter_reject o (rw (new, no_entry) at spec)
          | inr entry ↦ Settled-Kept (es ++ (key, value) ∷ []) d.filter o (rw (new, entry) at spec)
        ]
      ])
  perform-Kept (update_call key value) =
      mono (addorupdate_lem g other es key value d m is) (λ o spec.
        elim (Bool-cases (rejects d.filter key value)) [
          | inl no_entry ↦ same-Kept map_filter_reject o (rw no_entry at spec)
          | inr entry ↦
              Settled-Kept
                (if contains key (key_list es)
                  then update key value es
                  else es ++ (key, value) ∷ [])
                d.filter o (rw entry at spec)
        ])
  perform-Kept (delete_call key) = mono (delete_lem g other es key d m is) (λ o spec.
      elim (Bool-cases (contains key (key_list es))) [
        | inl known ↦ (let (d', r, h, is', f) = rw known at spec in (d', h, (erase key es, is')))
        | inr new ↦ same-Kept map_keynotfound o (rw new at spec)
      ])

perform_all-IsMap :
    (g : Policy) (other : ℕ) (cs : List Call) (es : Entries) (d : MapData) (m : Memory)
    → IsMap g other es d m
    → Returns (λ (h : History). (es' : Entries) × IsMap g other es' h.1 h.2) (perform_all cs d m)
unfolding perform_all
perform_all-IsMap g other [] es d m is = returns (es, is)
perform_all-IsMap g other (c ∷ cs) es d m is = bind (perform-Kept g other es d m is c) (λ o kept.
    let (d', h, (es', is')) = kept in
    rw h (bind (perform_all-IsMap g other cs es' d' o.2 is') (λ later good. returns good)))

-- sky_map_create, then any history of calls of sky_map_add, sky_map_addorupdate and
-- sky_map_delete, then sky_map_destroy if there is a map, returns, whatever requests for memory
-- are refused and whatever the filter is; and as many blocks are live as before.
pub lifetime_lem :
    (f : Option Filter) (cs : List Call) (m : Memory)
    → (m' : Memory) × (lifetime f cs m ≡ ok m') × (m'.live ≡ m.live)
unfolding lifetime
lifetime_lem f cs m = elim (map_create_lem f m) [
  | inl (nothing, refused, same) ↦ ((create f m).1, rw (nothing, lifetime) refl, same)
  | inr (d, made, filter, is) ↦
      let (h, run, (es, is')) =
        result (perform_all-IsMap m.grants m.live cs [] d (create f m).1 is) in
      (
        record (h.2) { live = m.live },
        rw (made, lifetime, run) (destroy_lem m.grants m.live es h.1 h.2 is'),
        refl,
      )
]

-- what a call comes to where no request is refused and there is no filter
abbrev Answered : Policy → ℕ → MapResult × Entries → Outcome → Type 0
Answered g other a (r, h, m) =
    (r ≡ a.0) × ((d : MapData) × (h ≡ some d) × IsMap g other a.1 d m × (d.filter ≡ none))

filter_after-none : (es : Entries) → filter_after es none ≡ none
filter_after-none [] = refl
filter_after-none (e ∷ es) = refl

module _ (g : Policy) (granted : (n : ℕ) → g n ≡ true) (other : ℕ) (es : Entries) (d : MapData)
    (m : Memory) (is : IsMap g other es d m) (open_map : d.filter ≡ none) where
  same-Answered : (r : MapResult) (o : Outcome) → o ≡ (r, some d, m) → Answered g other (r, es) o
  same-Answered r o e = subst (Answered g other (r, es)) (sym e) (refl, (d, refl, is, open_map))

  Settled-Answered :
      (es' : Entries) (o : Outcome)
      → Settled g other es es' d.filter o
      → Answered g other (map_ok, es') o
  Settled-Answered es' o (d', h, rest) = elim rest [
    | inl done ↦ (done.0, (d', h, done.1, done.2 ∙ open_map))
    | inr failed ↦
        absurd
          (let (n, refused) = failed.1 in let e : true ≡ false = sym (granted n) ∙ refused in cc)
  ]

  perform-Answered : (c : Call) → Returns (Answered g other (answer c es)) (perform c d m)
  unfolding answer rejects
  perform-Answered (add_call key value) = mono (add_lem g other es key value d m is) (λ o spec.
      elim (Bool-cases (contains key (key_list es))) [
        | inl known ↦ rw known (same-Answered map_keyexists o (rw known at spec))
        | inr new ↦ rw new (
            Settled-Answered (es ++ (key, value) ∷ []) o
              (rw (new, ap (λ f. rejects f key value) open_map) at spec))
      ])
  perform-Answered (update_call key value) =
      mono (addorupdate_lem g other es key value d m is) (λ o spec.
        Settled-Answered
          (if contains key (key_list es) then update key value es else es ++ (key, value) ∷ []) o
          (rw (ap (λ f. rejects f key value) open_map) at spec))
  perform-Answered (delete_call key) = mono (delete_lem g other es key d m is) (λ o spec.
      elim (Bool-cases (contains key (key_list es))) [
        | inl known ↦
            let (d', r, h, is', f) = rw known at spec in
            rw known (
              r,
              (
                d',
                h,
                is',
                f ∙ ap (filter_after (erase key es)) open_map ∙ filter_after-none (erase key es),
              ),
            )
        | inr new ↦ rw new (same-Answered map_keynotfound o (rw new at spec))
      ])

-- For any history of calls of sky_map_add, sky_map_addorupdate and sky_map_delete on a map with
-- the entries es, no key twice and no filter, where no request for memory is refused: each call
-- returns with the code that the list of entries gives, and afterwards the map has exactly the
-- entries that the history leaves in that list, in its order.
pub perform_all-answers :
    (g : Policy) (granted : (n : ℕ) → g n ≡ true) (other : ℕ) (cs : List Call) (es : Entries)
    (d : MapData) (m : Memory)
    → IsMap g other es d m
    → d.filter ≡ none
    → Returns
        (λ (h : History). (h.0 ≡ (answers cs es).0) × IsMap g other (answers cs es).1 h.1 h.2)
        (perform_all cs d m)
unfolding perform_all answers
perform_all-answers g granted other [] es d m is open_map = returns (refl, is)
perform_all-answers g granted other (c ∷ cs) es d m is open_map =
    bind (perform-Answered g granted other es d m is open_map c) (λ o done.
      let (r, (d', h, is', open')) = done in
      rw h (
        bind (perform_all-answers g granted other cs (answer c es).1 d' o.2 is' open')
          (λ later good. returns (rw (r, good.0) refl, good.1))))
