-- ===== src/Map/Locate.antt =====
-- Where a key stands among the entries of a map, and what lookup, update and erase do there.
use skysdk.Base.{
  ℕ, suc, ◌+◌, ◌≡◌, refl, ap, sym, ◌⊎◌, inl, inr, true, false, none, some, List, [], ◌∷◌, ◌++◌, Str,
  str_eq, str_eq→eq, str_eq_sym, ◌∙◌, length, length-map, arith, Bool-cases,
}
use skysdk.Map.Rep.{Entries, owned, key_list, Distinct, contains, index_from, lookup, update, erase}

pub record Located (i : ℕ) (key : Str) (es : Entries) : Type 0 where
  pub pre : Entries
  pub entry : Str × Str
  pub post : Entries
  pub parts : es ≡ pre ++ entry ∷ post
  pub hit : entry.0 ≡ key
  pub index : index_from i key (key_list es) ≡ some (i + length pre)
  pub found : lookup key es ≡ some entry.1
  pub known : contains key (key_list es) ≡ true
  pub erased : erase key es ≡ pre ++ post
  pub updated : (value : Str) → update key value es ≡ pre ++ (entry.0, value) ∷ post

pub record Missing (i : ℕ) (key : Str) (es : Entries) : Type 0 where
  pub index : index_from i key (key_list es) ≡ none
  pub absent : lookup key es ≡ none
  pub unknown : contains key (key_list es) ≡ false
  pub erased : erase key es ≡ es
  pub updated : (value : Str) → update key value es ≡ es

pub locate : (i : ℕ) (key : Str) (es : Entries) → Located i key es ⊎ Missing i key es
unfolding index_from lookup update erase contains
locate i key [] =
    inr (record { index = refl; absent = refl; unknown = refl; erased = refl; updated = λ v. refl })
locate i key (e ∷ es) = elim (Bool-cases (str_eq e.0 key)) [
  | inl same ↦ inl (record {
    pre = [];
    entry = e;
    post = es;
    parts = refl;
    hit = str_eq→eq e.0 key same;
    index = rw same (ap some (omega arith));
    found = rw same;
    known = rw same;
    erased = rw same;
    updated = λ v. rw same;
  })
  | inr other ↦ elim (locate (suc i) key es) [
    | inl l ↦ inl (record {
      pre = e ∷ l.pre;
      entry = l.entry;
      post = l.post;
      parts = ap (◌∷◌ e) l.parts;
      hit = l.hit;
      index = rw (other, l.index) (ap some (omega arith));
      found = rw (other, l.found);
      known = rw (other, l.known);
      erased = rw (other, l.erased);
      updated = λ v. rw (other, l.updated v);
    })
    | inr l ↦ inr (record {
      index = rw (other, l.index);
      absent = rw (other, l.absent);
      unknown = rw (other, l.unknown);
      erased = rw (other, l.erased);
      updated = λ v. rw (other, l.updated v);
    })
  ]
]

-- The keys after an update, an append and an erasure, and that no key comes up twice.
pub update-keys : (key value : Str) (es : Entries) → key_list (update key value es) ≡ key_list es
unfolding update
update-keys key value [] = refl
update-keys key value (e ∷ es) = elim (Bool-cases (str_eq e.0 key)) [
  | inl same ↦ rw same
  | inr other ↦ rw (other, update-keys key value es)
]

pub length-update : (key value : Str) (es : Entries) → length (update key value es) ≡ length es
length-update key value es =
    sym (length-map (λ e. e.0) (update key value es))
    ∙ (ap length (update-keys key value es) ∙ length-map (λ e. e.0) es)

pub owned-length : (xs ys : Entries) → length xs ≡ length ys → owned xs ≡ owned ys
owned-length [] [] h = refl
owned-length [] (y ∷ ys) h = absurd (omega arith)
owned-length (x ∷ xs) [] h = absurd (omega arith)
owned-length (x ∷ xs) (y ∷ ys) h = omega arith

contains-append :
    (key k : Str) (ss : List Str)
    → contains key ss ≡ false
    → str_eq k key ≡ false
    → contains key (ss ++ k ∷ []) ≡ false
unfolding contains
contains-append key k [] h ne = rw ne
contains-append key k (s ∷ ss) h ne = elim (Bool-cases (str_eq s key)) [
  | inl same ↦ absurd (ground arith)
  | inr other ↦ rw other (contains-append key k ss (rw other at h) ne)
]

pub Distinct-append :
    (k : Str) (ss : List Str) → Distinct ss → contains k ss ≡ false → Distinct (ss ++ k ∷ [])
unfolding contains
Distinct-append k [] d h = (refl, tt)
Distinct-append k (s ∷ ss) d h = elim (Bool-cases (str_eq s k)) [
  | inl same ↦ absurd (ground arith)
  | inr other ↦ (
    contains-append s k ss d.0 (str_eq_sym k s ∙ other),
    Distinct-append k ss d.1 (rw other at h),
  )
]

contains-erase :
    (key x : Str) (es : Entries)
    → contains x (key_list es) ≡ false
    → contains x (key_list (erase key es)) ≡ false
unfolding contains erase
contains-erase key x [] h = refl
contains-erase key x (e ∷ es) h = elim (Bool-cases (str_eq e.0 key)) [
  | inl same ↦ rw same (ground arith)
  | inr other ↦ rw other (ground (arith, contains-erase key x es))
]

pub Distinct-erase :
    (key : Str) (es : Entries) → Distinct (key_list es) → Distinct (key_list (erase key es))
unfolding erase
Distinct-erase key [] d = tt
Distinct-erase key (e ∷ es) d = elim (Bool-cases (str_eq e.0 key)) [
  | inl same ↦ rw same (d.1)
  | inr other ↦ rw other (contains-erase key e.0 es d.0, Distinct-erase key es d.1)
]
