-- ===== src/Map/Lookup.antt =====
-- How the abstract map answers a search after an update and after a removal.
use mathlib.Core.Path.{subst}
use skysdk.Base.{
  ◌≡◌, refl, ap, sym, ◌∙◌, inl, inr, true, false, none, some, [], ◌∷◌, ◌++◌, Str, str_eq, str_eq→eq,
  str_eq_refl, if◌then◌else◌, arith, Bool-cases,
}
use skysdk.Map.Rep.{Entries, key_list, Distinct, contains, lookup, update, erase}

lookup-append :
    (key value j : Str) (es : Entries)
    → lookup j (es ++ (key, value) ∷ []) ≡ (
        if contains j (key_list es) then lookup j es else if str_eq key j then some value else none)
unfolding lookup contains
lookup-append key value j [] = refl
lookup-append key value j (e ∷ es) = elim (Bool-cases (str_eq e.0 j)) [
  | inl same ↦ rw same
  | inr other ↦ rw other (lookup-append key value j es)
]

lookup-update_self :
    (key value : Str) (es : Entries)
    → contains key (key_list es) ≡ true
    → lookup key (update key value es) ≡ some value
unfolding lookup update contains
lookup-update_self key value [] h = cc
lookup-update_self key value (e ∷ es) h = elim (Bool-cases (str_eq e.0 key)) [
  | inl same ↦ rw (same, same)
  | inr other ↦ rw (other, other) (lookup-update_self key value es (rw other at h))
]

lookup-update_ne :
    (key value j : Str) (es : Entries)
    → str_eq key j ≡ false
    → lookup j (update key value es) ≡ lookup j es
unfolding lookup update
lookup-update_ne key value j [] ne = refl
lookup-update_ne key value j (e ∷ es) ne = elim (Bool-cases (str_eq e.0 key)) [
  | inl same ↦
      let e_ne : str_eq e.0 j ≡ false = ap (λ k. str_eq k j) (str_eq→eq e.0 key same) ∙ ne in
      rw (same, e_ne)
  | inr other ↦ elim (Bool-cases (str_eq e.0 j)) [
    | inl same ↦ rw (other, same)
    | inr far ↦ rw (other, far) (lookup-update_ne key value j es ne)
  ]
]

lookup-eq-none : (j : Str) (es : Entries) → contains j (key_list es) ≡ false → lookup j es ≡ none
unfolding lookup contains
lookup-eq-none j [] h = refl
lookup-eq-none j (e ∷ es) h = elim (Bool-cases (str_eq e.0 j)) [
  | inl same ↦ absurd (ground arith)
  | inr other ↦ rw other (lookup-eq-none j es (rw other at h))
]

lookup-erase_self :
    (key : Str) (es : Entries) → Distinct (key_list es) → lookup key (erase key es) ≡ none
unfolding lookup erase
lookup-erase_self key [] d = refl
lookup-erase_self key (e ∷ es) d = elim (Bool-cases (str_eq e.0 key)) [
  | inl same ↦ rw same (
      lookup-eq-none key es
        (subst (λ k. contains k (key_list es) ≡ false) (str_eq→eq e.0 key same) d.0))
  | inr other ↦ rw (other, other) (lookup-erase_self key es d.1)
]

lookup-erase_ne :
    (key j : Str) (es : Entries) → str_eq key j ≡ false → lookup j (erase key es) ≡ lookup j es
unfolding lookup erase
lookup-erase_ne key j [] ne = refl
lookup-erase_ne key j (e ∷ es) ne = elim (Bool-cases (str_eq e.0 key)) [
  | inl same ↦
      let e_ne : str_eq e.0 j ≡ false = ap (λ k. str_eq k j) (str_eq→eq e.0 key same) ∙ ne in
      rw (same, e_ne)
  | inr other ↦ elim (Bool-cases (str_eq e.0 j)) [
    | inl same ↦ rw (other, same)
    | inr far ↦ rw (other, far) (lookup-erase_ne key j es ne)
  ]
]

-- The entries after a put, as a client reads them.
unfoldable pub put : Str → Str → Entries → Entries
put key value es =
    if contains key (key_list es) then update key value es else es ++ (key, value) ∷ []

pub lookup-put :
    (key value j : Str) (es : Entries)
    → lookup j (put key value es) ≡ (if str_eq key j then some value else lookup j es)
unfolding put
lookup-put key value j es = elim (Bool-cases (str_eq key j)) [
  | inl same ↦
      rw same
        (subst (λ k. lookup k (put key value es) ≡ some value) (str_eq→eq key j same) put_self)
  | inr ne ↦ rw ne (put_ne ne)
]
  where
    put_self : lookup key (put key value es) ≡ some value
    put_self = elim (Bool-cases (contains key (key_list es))) [
      | inl known ↦ rw (put, known) (lookup-update_self key value es known)
      | inr new ↦ rw (put, new) (lookup-append key value key es ∙ rw (new, str_eq_refl key))
    ]

    put_ne : str_eq key j ≡ false → lookup j (put key value es) ≡ lookup j es
    put_ne ne = elim (Bool-cases (contains key (key_list es))) [
      | inl known ↦ rw (put, known) (lookup-update_ne key value j es ne)
      | inr new ↦
          rw (put, new, lookup-append key value j es)
            (elim (Bool-cases (contains j (key_list es))) [
              | inl there ↦ rw there
              | inr absent ↦ rw (absent, ne) (sym (lookup-eq-none j es absent))
            ])
    ]

pub lookup-erase :
    (key j : Str) (es : Entries)
    → Distinct (key_list es)
    → lookup j (erase key es) ≡ (if str_eq key j then none else lookup j es)
lookup-erase key j es d = elim (Bool-cases (str_eq key j)) [
  | inl same ↦ rw same (
      subst (λ k. lookup k (erase key es) ≡ none) (str_eq→eq key j same)
        (lookup-erase_self key es d))
  | inr ne ↦ rw ne (lookup-erase_ne key j es ne)
]
