-- ===== src/CriticalSection/Tests.antt =====
-- A critical section (sky/src/sky_critical_section.c) over a mutex that counts the holds of its owner.
use skysdk.Base.{
  ℕ, suc, sym, ◌∙◌, ltb, lt→ltb, ◌⊎◌, ◌≤◌, ◌+◌, ◌-◌, ◌<◌, ◌==◌, ◌≡◌, ◌≢◌, refl, inl, inr, true,
  Bool-cases, Option, none, some, [], ◌∷◌, if◌then◌else◌, arith,
}
use mathlib.Core.Path.{subst}
use skysdk.Memory.{Memory, alloc}
use skysdk.CriticalSection.{
  Locking, waits, has, fails_with_error, Ops, Locked, Documented, create, enter, entered, inside,
  Reaches, created, enters,
}
use skysdk.CriticalSection.Calls.{some-injective}
use skysdk.CriticalSection.Exclusion.{Reaches-exclusion, Reaches-entry}

-- the owner and the number of its holds
abbrev Counter : Type 0
Counter = ℕ × ℕ

abbrev take_hold : ℕ → Counter → Option Counter
take_hold t (owner, n) =
    if n == 0 then some (t, 1) else if owner == t then some (t, n + 1) else none

-- a thread may hold the mutex ten times
abbrev lock_counter : ℕ → Counter → Locking Counter
lock_counter t (owner, n) =
    if n == 0
    then has (t, 1)
    else if owner == t
    then if ltb n 10 then has (t, n + 1) else fails_with_error
    else waits

abbrev counters : Ops Counter
counters = record {
  init = λ k. (0, 0);
  lock = lock_counter;
  trylock = take_hold;
  unlock = λ t m. (m.0, m.1 - 1);
  held = λ m t. if m.0 == t then m.1 else 0;
  limit = 10;
}

abbrev Any : Counter → Type 0
Any m = Unit

abbrev main_thread : ℕ
main_thread = 5

first_hold : (t owner n : ℕ) → n ≡ 0 → Locked counters t (owner, n) (t, 1)
first_hold t owner n z = (ground (arith, z), λ u ne. (ground (arith, z), ground (arith, ne)))

next_hold : (t owner n : ℕ) → owner ≡ t → Locked counters t (owner, n) (t, n + 1)
next_hold t owner n same =
    (ground (arith, same), λ u ne. (ground (arith, same, ne), ground (arith, ne)))

take_hold-Locked :
    (t : ℕ) (m m' : Counter) → Any m → take_hold t m ≡ some m' → Any m' × Locked counters t m m'
take_hold-Locked t (owner, n) m' any run = (
  any,
  elim (Bool-cases (n == 0)) [
    | inl z ↦
        subst (λ m. Locked counters t (owner, n) m) (some-injective (rw z at run))
          (first_hold t owner n (ground arith))
    | inr some_held ↦ elim (Bool-cases (owner == t)) [
      | inl own ↦
          subst (λ m. Locked counters t (owner, n) m) (some-injective (rw (some_held, own) at run))
            (next_hold t owner n (ground arith))
      | inr other ↦ absurd (let e = rw (some_held, other) at run in cc)
    ]
  ],
)

-- what lock_counter comes to
abbrev LockCase : ℕ → Counter → Locking Counter → Type 0
LockCase t (owner, n) l =
    ((n ≡ 0) × (l ≡ has (t, 1)))
    ⊎ ((owner ≡ t) × (l ≡ has (t, n + 1)))
    ⊎ ((owner ≡ t) × (10 ≤ n) × (l ≡ fails_with_error))
    ⊎ ((owner ≢ t) × (0 < n) × (l ≡ waits))

lock_counter_lem : (t : ℕ) (m : Counter) → LockCase t m (lock_counter t m)
lock_counter_lem t (owner, n) = elim (Bool-cases (n == 0)) [
  | inl z ↦ inl (ground arith, rw z refl)
  | inr some_held ↦ elim (Bool-cases (owner == t)) [
    | inr other ↦ inr (inr (inr (λ h. ground (arith, h), ground arith, rw (some_held, other) refl)))
    | inl own ↦ elim (Bool-cases (ltb n 10)) [
      | inl few ↦ inr (inl (ground arith, rw (some_held, own, few) refl))
      | inr many ↦
          inr
            (inr (inl (ground arith, ground (arith, lt→ltb n 10), rw (some_held, own, many) refl)))
    ]
  ]
]

has-injective : (m m' : Counter) → ◌≡◌ {A = Locking Counter} (has m) (has m') → m ≡ m'
has-injective m m' e = cc

lock_counter-Locked : (t : ℕ) (m m' : Counter) → lock_counter t m ≡ has m' → Locked counters t m m'
lock_counter-Locked t (owner, n) m' run = elim (lock_counter_lem t (owner, n)) [
  | inl (z, e) ↦
      subst (λ m. Locked counters t (owner, n) m) (has-injective (t, 1) m' (sym e ∙ run))
        (first_hold t owner n z)
  | inr (inl (own, e)) ↦
      subst (λ m. Locked counters t (owner, n) m) (has-injective (t, n + 1) m' (sym e ∙ run))
        (next_hold t owner n own)
  | inr (inr (inl (own, many, e))) ↦ absurd (let f = sym e ∙ run in cc)
  | inr (inr (inr (other, held, e))) ↦ absurd (let f = sym e ∙ run in cc)
]

lock_counter-waits :
    (t : ℕ) (m : Counter) → lock_counter t m ≡ waits → (u : ℕ) × (u ≢ t) × (0 < counters.held m u)
lock_counter-waits t (owner, n) run = elim (lock_counter_lem t (owner, n)) [
  | inl (z, e) ↦ absurd (let f = sym e ∙ run in cc)
  | inr (inl (own, e)) ↦ absurd (let f = sym e ∙ run in cc)
  | inr (inr (inl (own, many, e))) ↦ absurd (let f = sym e ∙ run in cc)
  | inr (inr (inr (other, held, e))) ↦ (owner, other, ground (arith, held))
]

lock_counter-fails :
    (t : ℕ) (m : Counter) → lock_counter t m ≡ fails_with_error → 10 ≤ counters.held m t
lock_counter-fails t (owner, n) run = elim (lock_counter_lem t (owner, n)) [
  | inl (z, e) ↦ absurd (let f = sym e ∙ run in cc)
  | inr (inl (own, e)) ↦ absurd (let f = sym e ∙ run in cc)
  | inr (inr (inl (own, many, e))) ↦ ground (arith, own, many)
  | inr (inr (inr (other, held, e))) ↦ absurd (let f = sym e ∙ run in cc)
]

owner_of_held : (owner n t k : ℕ) → counters.held (owner, n) t ≡ suc k → (owner ≡ t) × (n ≡ suc k)
owner_of_held owner n t k h = ground arith

counters-Documented : Documented counters Any
counters-Documented = record {
  init_law = (tt, λ t. ground arith);
  lock_law = λ t m m' any run. (tt, lock_counter-Locked t m m' run);
  trylock_law = take_hold-Locked;
  wait_law = λ t m any run. lock_counter-waits t m run;
  limit_law = λ t m any run. lock_counter-fails t m run;
  unlock_law = λ t n m any h.
      let (own, count) = owner_of_held m.0 m.1 t n h in
      (tt, ground (arith, own, count), λ u ne. ground (arith, own, ne));
}

abbrev memory : Memory
memory = record { grants = λ n. true; requests = 0; live = 0 }

made-Reaches : Reaches counters [] (0, 0)
unfolding create alloc
made-Reaches = created memory _ refl

one-Reaches : Reaches counters (entered 5 ∷ []) (5, 1)
unfolding enter inside
one-Reaches = enters 5 made-Reaches (omega arith) refl

Reaches-exclusion_example : main_thread ≡ main_thread
unfolding inside
Reaches-exclusion_example =
    Reaches-exclusion counters Any counters-Documented main_thread main_thread one-Reaches
      (omega arith) (omega arith)

Reaches-entry_example :
    (m' : Counter) × (enter counters 5 (some (5, 1)) ≡ some (some m'))
    × (counters.held m' 5 ≡ inside 5 (entered 5 ∷ []) + 1)
    × Reaches counters (entered 5 ∷ entered 5 ∷ []) m'
unfolding inside
Reaches-entry_example =
    Reaches-entry counters Any counters-Documented 5 one-Reaches (λ u ne. ground (arith, ne))
      (omega arith)
