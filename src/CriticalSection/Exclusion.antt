-- ===== src/CriticalSection/Exclusion.antt =====
-- Which thread is inside a critical section (sky/src/sky_critical_section.c).
use skysdk.Base.{
  ℕ, suc, ◌+◌, ◌-◌, ◌<◌, ◌≤◌, ◌==◌, ◌≡◌, ◌≢◌, ◌⊎◌, refl, sym, ap, ◌∙◌, inl, inr, true, false, some,
  Bool-cases, List, ◌∷◌, if◌then◌else◌, arith,
}
use mathlib.Core.Path.{subst}
use skysdk.CriticalSection.{
  has, Ops, Locked, Documented, enter, Event, entered, left, inside, Reaches, created, enters,
  tries, fails, leaves,
}
use skysdk.CriticalSection.Calls.{
  Locking-cases, enter_lem, try_enter_lem, failed_try, created_lem, left_lem,
}

pub same_or_not : (a b : ℕ) → (((a == b) ≡ true) × (a ≡ b)) ⊎ (((a == b) ≡ false) × (a ≢ b))
same_or_not a b = elim (Bool-cases (a == b)) [
  | inl e ↦ inl (e, ground (arith))
  | inr e ↦ inr (e, λ h. ground (arith, h))
]

differ : (a b : ℕ) → a ≢ b → (a == b) ≡ false
differ a b ne = elim (same_or_not a b) [ inl (e, same) ↦ absurd (ne same) | inr (e, h) ↦ e ]

inside-left :
    (thread t : ℕ) (es : List Event)
    → inside t (left thread ∷ es) ≡ (if thread == t then inside t es - 1 else inside t es)
unfolding inside
inside-left thread t es = refl

inside_left : (thread t : ℕ) (es : List Event) → inside t (left thread ∷ es) ≤ inside t es
unfolding inside
inside_left thread t es = elim (Bool-cases (thread == t)) [
  | inl e ↦ rw e (omega arith)
  | inr e ↦ rw e (omega arith)
]

one_less : (t n : ℕ) (es : List Event) → inside t es ≡ suc n → n ≡ inside t es - 1
one_less t n es h = omega (arith, h)

module _ {M : Type 0} (ops : Ops M) (Valid : M → Type 0) (doc : Documented ops Valid) where
  -- The mutex counts what the history says, and at most one thread is inside.
  abbrev Agrees : List Event → M → Type 0
  Agrees es m =
      Valid m
      × ((t : ℕ) → ops.held m t ≡ inside t es)
      × ((t u : ℕ) → t ≢ u → 0 < inside t es → inside u es ≡ 0)

  entered-Agrees :
      (es : List Event) (m m' : M) (thread : ℕ)
      → Agrees es m
      → Valid m'
      → Locked ops thread m m'
      → Agrees (entered thread ∷ es) m'
  unfolding inside
  entered-Agrees es m m' thread (valid, counts, alone) valid' (more, others) = (
    valid',
    λ t. elim (same_or_not thread t) [
      | inl (e, same) ↦ rw e (rw same at (more ∙ ap (λ n. n + 1) (counts thread)))
      | inr (e, ne) ↦ let o = others t (λ h. ne (sym h)) in rw (e) (o.1 ∙ sym o.0 ∙ counts t)
    ],
    λ t u ne in_t. elim (same_or_not thread u) [
      | inl (e, same) ↦
          let apart : thread ≢ t = λ h. ne (sym h ∙ same) in
          let o = others t (λ h. apart (sym h)) in
          let outside : inside t (entered thread ∷ es) ≡ inside t es =
            rw (differ thread t apart) refl in
          absurd (omega (arith, in_t, outside, counts t, o.0))
      | inr (e, ne') ↦ rw e (sym (counts u) ∙ (others u (λ h. ne' (sym h))).0)
    ],
  )

  left-Agrees :
      (es : List Event) (m : M) (thread n : ℕ)
      → Agrees es m
      → inside thread es ≡ suc n
      → Agrees (left thread ∷ es) (ops.unlock thread m)
  left-Agrees es m thread n (valid, counts, alone) in_thread =
      let (valid', held_n, others) = doc.unlock_law thread n m valid (counts thread ∙ in_thread) in
      (
        valid',
        λ t. elim (same_or_not thread t) [
          | inl (e, same) ↦
              rw (inside-left thread t es, e)
                (subst (λ x. ops.held (ops.unlock thread m) x ≡ inside x es - 1) same
                  (held_n ∙ one_less thread n es in_thread))
          | inr (e, ne) ↦ rw (inside-left thread t es, e) (others t (λ h. ne (sym h)) ∙ counts t)
        ],
        λ t u ne in_t.
            let nobody = alone t u ne (omega (arith, in_t, inside_left thread t es)) in
            omega (arith, nobody, inside_left thread u es),
      )

  got_in :
      (es : List Event) (m m' : M) (thread : ℕ)
      → Agrees es m
      → inside thread es < ops.limit
      → enter ops thread (some m) ≡ some (some m')
      → ops.lock thread m ≡ has m'
  got_in es m m' thread (valid, counts, alone) few run = elim (enter_lem ops m m' thread run) [
    | inl got ↦ got
    | inr failed ↦ absurd (omega (arith, doc.limit_law thread m valid failed, counts thread, few))
  ]

  Reaches-Agrees : {es : List Event} {m : M} → Reaches ops es m → Agrees es m
  unfolding inside
  Reaches-Agrees (created {m} mem mem' made) =
      let law : Valid m × ((t : ℕ) → ops.held m t ≡ 0) =
        subst (λ x. Valid x × ((t : ℕ) → ops.held x t ≡ 0)) (created_lem ops m mem mem' made)
          doc.init_law in
      (law.0, law.1, λ t u ne in_t. refl)
  Reaches-Agrees (enters {es} {m} {m'} thread before few run) =
      let ih = Reaches-Agrees before in
      let got = got_in es m m' thread ih few run in
      let (valid', locked) = doc.lock_law thread m m' ih.0 got in
      entered-Agrees es m m' thread ih valid' locked
  Reaches-Agrees (tries {es} {m} {m'} thread before run) =
      let ih = Reaches-Agrees before in
      let (valid', locked) = doc.trylock_law thread m m' ih.0 (try_enter_lem ops m m' thread run) in
      entered-Agrees es m m' thread ih valid' locked
  Reaches-Agrees (fails {es} {m} {m'} thread before run) =
      rw (failed_try ops m m' thread run) at (Reaches-Agrees before)
  Reaches-Agrees (leaves {es} {m} {m'} thread before in_thread run) =
      rw (left_lem ops m m' thread run) at (
        left-Agrees es m thread (inside thread es - 1) (Reaches-Agrees before)
          (omega (arith, in_thread)))

  -- Over a recursive mutex that behaves as POSIX documents, and for any interleaving of threads
  -- that enter, try to enter and leave a new critical section, each entering less often than it
  -- may hold the mutex, and leaving only what it has entered: two threads that have not left as
  -- often as they have entered are the same thread.
  pub Reaches-exclusion :
      {es : List Event} {m : M} (t u : ℕ)
      → Reaches ops es m
      → 0 < inside t es
      → 0 < inside u es
      → t ≡ u
  Reaches-exclusion {es} t u reach in_t in_u = elim (same_or_not t u) [
    | inl (e, same) ↦ same
    | inr (e, ne) ↦
        let (valid, counts, alone) = Reaches-Agrees reach in
        let nobody = alone t u ne in_t in absurd (omega (arith, in_u, nobody))
  ]

  -- Over a recursive mutex that behaves as POSIX documents, and after any such interleaving, a
  -- thread enters the critical section without waiting if no other thread is inside and it is
  -- inside less often than it may hold the mutex; it then holds the mutex once more than it was
  -- inside, and the interleaving goes on with its entry.
  pub Reaches-entry :
      {es : List Event} {m : M} (thread : ℕ)
      → Reaches ops es m
      → ((other : ℕ) → other ≢ thread → inside other es ≡ 0)
      → inside thread es < ops.limit
      → (m' : M) × (enter ops thread (some m) ≡ some (some m'))
        × (ops.held m' thread ≡ inside thread es + 1)
        × Reaches ops (entered thread ∷ es) m'
  unfolding enter
  Reaches-entry {es} {m} thread reach free few =
      let (valid, counts, alone) = Reaches-Agrees reach in
      elim (Locking-cases (ops.lock thread m)) [
        | inl blocked ↦
            let (other, ne, holds) = doc.wait_law thread m valid blocked in
            absurd (omega (arith, holds, free other ne, counts other))
        | inr (inl (m', got)) ↦
            let (valid', (more, others)) = doc.lock_law thread m m' valid got in
            (
              m',
              rw (enter, got) refl,
              more ∙ ap (λ n. n + 1) (counts thread),
              enters thread reach few (rw (enter, got) refl),
            )
        | inr (inr failed) ↦
            absurd (omega (arith, doc.limit_law thread m valid failed, counts thread, few))
      ]
