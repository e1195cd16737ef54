-- ===== src/ShareMemory/Publish.antt =====
-- sky_share_memory_create and sky_share_memory_open (sky/src/sky_ipc_shm.c).
use skysdk.Base.{
  ℕ, ◌-◌, ◌<◌, ◌≡◌, ◌⊎◌, refl, sym, Bool, true, false, Bool-cases, inl, inr, Option, some, List, [],
  ◌∷◌, ◌++◌, Str, length, ltb, Returns, returns, bind, arith,
}
use mathlib.Core.Path.{subst}
use skysdk.Memory.{refusal, more, alloc_lem}
use skysdk.SkyList.{Ptr, null, Store}
use skysdk.SkyList.Front.{full}
use skysdk.SkyList.Push.{Pushed, push_back_lem}
use skysdk.SkyList.Rep.{IsList, contents}
use skysdk.CriticalSection.{Ops, enter, leave}
use skysdk.ShareMemory.{
  ShareMem, Syscall, World, Answers, acquire_new, acquire_old, give_up, settle, publish, conclude,
  create_named, open_named, create, open_existing,
}
use skysdk.ShareMemory.Resources.{Holds, Kept, Holds-Owns, Balanced-Kept}
use skysdk.ShareMemory.Cleanup.{give_up_run, give_up-Balanced}
use skysdk.ShareMemory.Acquire.{Failed, Acquired, acquire_new_lem, acquire_old_lem}
use skysdk.ShareMemory.Outcome.{Refused, Named, Opened, Why}

same-Kept : {M : Type 0} (creator : Bool) (w : World M) → Kept creator w.calls w.calls
same-Kept creator w = record { files = λ fd. refl; areas = λ q n. refl; names = λ j. refl }

module _ {M : Type 0} (ops : Ops M) (thread : ℕ) (creator : Bool) (a : Answers) (w : World M)
    (name : Str) (ps qs : List Ptr) (is : IsList w.registry ps qs)
    (dead : w.registry.heap.alive a.item ≡ false) (inside : Option M)
    (enters : enter ops thread w.section ≡ some inside)
    (leaves : leave ops thread inside ≡ w.section) (why : Type 0) (broken : Failed a → why)
    (crowded : (full w.registry ≡ true) ⊎ ((a.item ≡ null) × (qs ≡ [])) → why) where
  -- the world with a block for the struct and the calls `cs`
  abbrev taken : List Syscall → World M
  taken cs = record w { memory = more w.memory; calls = cs }

  -- giving up, behind the loop or behind a full list
  refused_lem :
      (p : ShareMem) (cs : List Syscall)
      → Holds creator w.calls cs p
      → Returns (λ w₂. Refused creator w w₂) (give_up p (taken cs))
  refused_lem p cs holds = rw (give_up_run p (taken cs) w.memory.live (omega arith)) (
      returns (
        refl,
        refl,
        refl,
        refl,
        Balanced-Kept creator w.calls _ (give_up-Balanced creator w.calls cs p holds),
      ))

  publish_lem :
      (p : ShareMem) (cs : List Syscall)
      → Holds creator w.calls cs p
      → Named creator a name p
      → Returns (Opened creator a w ps name why) (publish ops thread p a (taken cs))
  unfolding publish settle
  publish_lem p cs holds object =
      rw (publish, enters, leaves)
        (bind (push_back_lem w.registry ps qs a.item a.place is dead)
          (λ r pushed. settled r pushed))
    where
      settled :
          (r : Bool × Store)
          → Pushed w.registry qs a.item (contents w.registry ps ++ a.place ∷ []) r
          → Returns
              (Opened creator a w ps name why)
              (settle ops thread p a (record (taken cs) { registry = r.1 }) r.0)
      settled (false, s') (same, at_limit) =
          subst
            (λ x.
              Returns (Opened creator a w ps name why)
                (settle ops thread p a (record (taken cs) { registry = x }) false))
            (sym same)
            (bind (refused_lem p cs holds)
              (λ w₂ back. returns (null, w₂, refl, inl (refl, crowded at_limit, back))))
      settled (true, s') (room, limit, listed) = returns (
        a.place,
        _,
        refl,
        inr (refl, (listed, (p, refl, Holds-Owns creator w.calls cs p holds, object), refl, refl)),
      )

  -- the part behind the checks of the name, for a struct that was granted
  acquired_lem :
      (r : Bool × ShareMem × World M)
      → Acquired creator a (taken w.calls) name r
      → Returns (Opened creator a w ps name why) (conclude ops thread a r)
  unfolding conclude
  acquired_lem (true, p, w₁) got = rw (got.rest) (publish_lem p w₁.calls got.held (got.object refl))
  acquired_lem (false, p, w₁) got = rw (got.rest) (
      bind (refused_lem p w₁.calls got.held)
        (λ w₂ back. returns (null, w₂, refl, inl (refl, broken (got.reason refl), back))))

module _ {M : Type 0} (ops : Ops M) (thread name_max : ℕ) (a : Answers) (w : World M)
    (ps qs : List Ptr) (is : IsList w.registry ps qs) (dead : w.registry.heap.alive a.item ≡ false)
    (inside : Option M) (enters : enter ops thread w.section ≡ some inside)
    (leaves : leave ops thread inside ≡ w.section) (name printed : Str)
    (prints : a.printed ≡ some printed) where
  share_memory_create_lem :
      (size : ℕ)
      → Returns
          (Opened true a w ps printed (Why name_max a w qs name))
          (create ops thread name_max (some name) size a w)
  unfolding create create_named
  share_memory_create_lem size = elim (Bool-cases (ltb (name_max - 1) (length name))) [
    | inl long ↦
        rw long (
          returns (null, w, refl, inl (refl, inl refl, (refl, refl, refl, refl, same-Kept true w))))
    | inr short ↦ elim (alloc_lem w.memory) [
      | inr refused ↦
          rw (short, refused)
            (returns (
              null,
              _,
              refl,
              inl (
                refl,
                inr (inl (refusal w.memory refused)),
                (refl, refl, refl, refl, same-Kept true w),
              ),
            ))
      | inl granted ↦
          rw (short, granted)
            (acquired_lem ops thread true a w printed ps qs is dead inside enters leaves _
              (λ f. inr (inr (inl f))) (λ f. inr (inr (inr f))) (acquire_new size a _)
              (acquire_new_lem a _ printed prints size))
    ]
  ]

  share_memory_open_lem :
      ((len : ℕ) → a.length_known ≡ some len → len < 0x1_0000_0000)
      → Returns
          (Opened false a w ps printed (Why name_max a w qs name))
          (open_existing ops thread name_max (some name) a w)
  unfolding open_existing open_named
  share_memory_open_lem small = elim (Bool-cases (ltb (name_max - 1) (length name))) [
    | inl long ↦
        rw long (
          returns
            (null, w, refl, inl (refl, inl refl, (refl, refl, refl, refl, same-Kept false w))))
    | inr short ↦ elim (alloc_lem w.memory) [
      | inr refused ↦
          rw (short, refused)
            (returns (
              null,
              _,
              refl,
              inl (
                refl,
                inr (inl (refusal w.memory refused)),
                (refl, refl, refl, refl, same-Kept false w),
              ),
            ))
      | inl granted ↦
          rw (short, granted)
            (acquired_lem ops thread false a w printed ps qs is dead inside enters leaves _
              (λ f. inr (inr (inl f))) (λ f. inr (inr (inr f))) (acquire_old a _)
              (acquire_old_lem a _ printed prints small))
    ]
  ]

  -- For a name that can be printed, a list of objects in order, an address for its item that is
  -- not in use, and a thread that enters the critical section and leaves it as it was, and where
  -- the size that sky_share_memory_open finds is below 2^32, sky_share_memory_create and
  -- sky_share_memory_open return. Either they give NULL because the name is too long, there is no
  -- memory for the struct, a call of the system fails, or the list is full or has no memory for an
  -- item: then list, critical section, structs and number of live blocks are those of before, and
  -- no descriptor or mapping is left, nor a name that sky_share_memory_create made. Or they give a
  -- handle that stands behind the others in the list, with one more live block, and whose struct
  -- holds the descriptor, the mapping and the name, and says whether it is the creator.
  pub share_memory_made_lem :
      (size : ℕ)
      → ((len : ℕ) → a.length_known ≡ some len → len < 0x1_0000_0000)
      → Returns
          (Opened true a w ps printed (Why name_max a w qs name))
          (create ops thread name_max (some name) size a w)
        × Returns
            (Opened false a w ps printed (Why name_max a w qs name))
            (open_existing ops thread name_max (some name) a w)
  share_memory_made_lem size small = (share_memory_create_lem size, share_memory_open_lem small)
