-- ===== src/ShareMemory/Acquire.antt =====
-- The loops of sky_share_memory_create and sky_share_memory_open (sky/src/sky_ipc_shm.c) up to the
-- registration.
use skysdk.Base.{
  ℕ, ◌+◌, ◌%◌, ◌<◌, ◌==◌, ◌≡◌, ◌≢◌, ◌⊎◌, refl, sym, Bool, true, false, Bool-cases, Option-cases,
  inl, inr, none, some, List, Str, if◌then◌else◌, arith,
}
use skysdk.SkyList.{Ptr, null}
use skysdk.ShareMemory.{map_failed, ShareMem, Syscall, World, Answers, acquire_new, acquire_old}
use skysdk.ShareMemory.Resources.{
  open_count, map_count, link_count, same_area, IsMapping, Holds, with_calls,
}

-- a call of the system that failed
abbrev pub Failed : Answers → Type 0
Failed a = (a.descriptor ≡ none) ⊎ (a.length_known ≡ none) ⊎ (a.mapping ≡ none)

-- What the loop of both functions leaves behind: a world that differs by its calls, and a struct that
-- holds what they took; and where the loop reached its end, the object and its mapping.
pub record Acquired {M : Type 0} (creator : Bool) (a : Answers) (w : World M) (name : Str)
    (r : Bool × ShareMem × World M) : Type 0 where
  pub held : Holds creator w.calls r.2.calls r.1
  pub rest : r.2 ≡ with_calls r.2.calls w
  pub reason : r.0 ≡ false → Failed a
  pub object :
      r.0 ≡ true
      → (r.1.file ≡ a.descriptor)
        × (some (r.1.ptr) ≡ a.mapping)
        × (r.1.is_creator ≡ creator)
        × (r.1.name ≡ name)

remainder : (n : ℕ) → n < 0x1_0000_0000 → n % 0x1_0000_0000 ≡ n
remainder n h = omega (arith, h)

apart : (a b : ℕ) → a ≢ b → (a == b) ≡ false
apart a b ne = elim (Bool-cases (a == b)) [ inl e ↦ absurd (ne (ground arith)) | inr e ↦ e ]

no_area :
    (cs cs' : List Syscall)
    → cs ≡ cs'
    → (q : Ptr) (n : ℕ) → IsMapping q
    → map_count q n cs ≡ map_count q n cs' + (if same_area null 0 q n then 1 else 0)
no_area cs cs' same q n good =
    let e : (null == q) ≡ false = apart null q (λ h. good.0 (sym h)) in rw (same, e) (omega arith)

failed_area :
    (cs cs' : List Syscall)
    → cs ≡ cs'
    → (q : Ptr) (n : ℕ) → IsMapping q
    → map_count q n cs ≡ map_count q n cs' + (if same_area map_failed 0 q n then 1 else 0)
failed_area cs cs' same q n good =
    let e : (map_failed == q) ≡ false = apart map_failed q (λ h. good.1 (sym h)) in
    rw (same, e) (omega arith)

module _ {M : Type 0} (a : Answers) (w : World M) (name : Str)
    (printed : a.printed ≡ some name) where
  pub acquire_new_lem : (size : ℕ) → Acquired true a w name (acquire_new size a w)
  unfolding acquire_new open_count map_count link_count
  acquire_new_lem size = rw printed (elim (Option-cases a.descriptor) [
    | inl d ↦ rw d (record {
      reason = λ f. inl refl;
      held = record {
        files = λ fd. omega arith;
        areas = no_area w.calls w.calls refl;
        names = λ c j. omega arith;
      };
      rest = refl;
      object = λ t. absurd (cc);
    })
    | inr (fd, d) ↦ elim (Option-cases a.length_known) [
      | inl l ↦
          rw (d, l)
            (record {
              reason = λ f. inr (inl refl);
              held = record {
                files = λ e. ground arith;
                areas = no_area w.calls w.calls refl;
                names = λ c j. ground arith;
              };
              rest = refl;
              object = λ t. absurd (cc);
            })
      | inr (len, l) ↦ elim (Option-cases a.mapping) [
        | inl m ↦
            rw (d, l, m)
              (record {
                reason = λ f. inr (inr refl);
                held = record {
                  files = λ e. ground arith;
                  areas = failed_area w.calls w.calls refl;
                  names = λ c j. ground arith;
                };
                rest = refl;
                object = λ t. absurd (cc);
              })
        | inr (ptr, m) ↦
            rw (d, l, m)
              (record {
                reason = λ f. absurd (cc);
                held = record {
                  files = λ e. ground arith;
                  areas = λ q n good. ground arith;
                  names = λ c j. ground arith;
                };
                rest = refl;
                object = λ t. (refl, refl, refl, refl);
              })
      ]
    ]
  ])

  -- an object of a size that fits in a uint32_t
  pub acquire_old_lem :
      ((len : ℕ) → a.length_known ≡ some len → len < 0x1_0000_0000)
      → Acquired false a w name (acquire_old a w)
  unfolding acquire_old open_count map_count
  acquire_old_lem small = rw printed (elim (Option-cases a.descriptor) [
    | inl d ↦ rw d (record {
      reason = λ f. inl refl;
      held = record {
        files = λ fd. omega arith;
        areas = no_area w.calls w.calls refl;
        names = λ c. absurd (cc);
      };
      rest = refl;
      object = λ t. absurd (cc);
    })
    | inr (fd, d) ↦ elim (Option-cases a.length_known) [
      | inl l ↦
          rw (d, l)
            (record {
              reason = λ f. inr (inl refl);
              held = record {
                files = λ e. ground arith;
                areas = no_area w.calls w.calls refl;
                names = λ c. absurd (cc);
              };
              rest = refl;
              object = λ t. absurd (cc);
            })
      | inr (len, l) ↦ elim (Option-cases a.mapping) [
        | inl m ↦
            rw (d, l, m)
              (record {
                reason = λ f. inr (inr refl);
                held = record {
                  files = λ e. ground arith;
                  areas = failed_area w.calls w.calls refl;
                  names = λ c. absurd (cc);
                };
                rest = refl;
                object = λ t. absurd (cc);
              })
        | inr (ptr, m) ↦
            rw (d, l, m, remainder len (small len l))
              (record {
                reason = λ f. absurd (cc);
                held = record {
                  files = λ e. ground arith;
                  areas = λ q n good. ground arith;
                  names = λ c. absurd (cc);
                };
                rest = refl;
                object = λ t. (refl, refl, refl, refl);
              })
      ]
    ]
  ])
