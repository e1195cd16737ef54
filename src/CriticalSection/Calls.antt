-- ===== src/CriticalSection/Calls.antt =====
-- What the calls of sky/src/sky_critical_section.c come to, told of the mutex.
use skysdk.Base.{
  ℕ, ◌≡◌, ◌⊎◌, refl, ap, ◌∙◌, inl, inr, true, false, Option, none, some, Option-cases,
}
use skysdk.Memory.{Memory, alloc_lem}
use skysdk.CriticalSection.{
  recursive, Locking, waits, has, fails_with_error, Ops, create, enter, leave, try_enter,
}

value_or {ℓ} : {A : Type ℓ} → A → Option A → A
value_or a none = a
value_or a (some b) = b

pub some-injective {ℓ} : {A : Type ℓ} {a b : A} → some a ≡ some b → a ≡ b
unfolding value_or
some-injective {a} e = ap (value_or a) e

pub Locking-cases :
    {M : Type 0} (l : Locking M) → (l ≡ waits) ⊎ ((m : M) × (l ≡ has m)) ⊎ (l ≡ fails_with_error)
Locking-cases waits = inl refl
Locking-cases (has m) = inr (inl (m, refl))
Locking-cases fails_with_error = inr (inr refl)

pub enter_lem :
    {M : Type 0} (ops : Ops M) (m m' : M) (thread : ℕ)
    → enter ops thread (some m) ≡ some (some m')
    → (ops.lock thread m ≡ has m') ⊎ (ops.lock thread m ≡ fails_with_error)
unfolding enter
enter_lem ops m m' thread run = elim (Locking-cases (ops.lock thread m)) [
  | inl blocked ↦ absurd (let e = rw (blocked, enter) at run in cc)
  | inr (inl (m₁, got)) ↦
      inl (got ∙ ap has (some-injective (some-injective (rw (got, enter) at run))))
  | inr (inr failed) ↦ inr failed
]

pub try_enter_lem :
    {M : Type 0} (ops : Ops M) (m m' : M) (thread : ℕ)
    → try_enter ops thread (some m) ≡ (true, some m')
    → ops.trylock thread m ≡ some m'
unfolding try_enter
try_enter_lem ops m m' thread run = elim (Option-cases (ops.trylock thread m)) [
  | inl busy ↦ absurd (let e = ap (λ r. r.0) (rw (busy, try_enter) at run) in cc)
  | inr (m₁, got) ↦ got ∙ ap (λ r. r.1) (rw (got, try_enter) at run)
]

pub failed_try :
    {M : Type 0} (ops : Ops M) (m m' : M) (thread : ℕ)
    → try_enter ops thread (some m) ≡ (false, some m')
    → m ≡ m'
unfolding try_enter
failed_try ops m m' thread run = elim (Option-cases (ops.trylock thread m)) [
  | inl busy ↦ some-injective (ap (λ r. r.1) (rw (busy, try_enter) at run))
  | inr (m₁, got) ↦ absurd (let e = ap (λ r. r.0) (rw (got, try_enter) at run) in cc)
]

pub created_lem :
    {M : Type 0} (ops : Ops M) (m : M) (mem mem' : Memory)
    → create ops mem ≡ (some m, mem')
    → ops.init recursive ≡ m
unfolding create
created_lem ops m mem mem' made = elim (alloc_lem mem) [
  | inl granted ↦ some-injective (ap (λ r. r.0) (rw (granted, create) at made))
  | inr denied ↦ absurd (let e = ap (λ r. r.0) (rw (denied, create) at made) in cc)
]

pub left_lem :
    {M : Type 0} (ops : Ops M) (m m' : M) (thread : ℕ)
    → leave ops thread (some m) ≡ some m'
    → ops.unlock thread m ≡ m'
unfolding leave
left_lem ops m m' thread run = some-injective run
