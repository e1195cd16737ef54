-- ===== src/ShareMemory/Release.antt =====
-- sky_share_memory_destroy (sky/src/sky_ipc_shm.c).
use mathlib.Core.Path.{subst}
use skysdk.Base.{
  ℕ, suc, ◌==◌, ◌≡◌, ◌⊎◌, refl, sym, ap, ◌∙◌, Bool, true, false, Bool-cases, inl, inr, Option, none,
  some, List, [], ◌∷◌, if◌then◌else◌, ok, Returns, returns, bind, arith,
}
use skysdk.Memory.{free_lem}
use skysdk.SkyList.{Ptr, null, Store, update}
use skysdk.SkyList.Scan.{remove}
use skysdk.SkyList.Pop.{Removed, take_first}
use skysdk.SkyList.Find.{remove_if_lem}
use skysdk.SkyList.Rep.{IsList, contents}
use skysdk.CriticalSection.{Ops, enter, leave}
use skysdk.CriticalSection.Calls.{some-injective}
use skysdk.ShareMemory.{
  ShareMem, Syscall, World, release, destroy_removed, destroy, closed, unmapped, unlinked,
}

-- the calls that a release makes, the latest in front
abbrev pub released : (fd : ℕ) → ShareMem → List Syscall → List Syscall
released fd p cs =
    let cs' = closed fd ∷ unmapped p.ptr p.size ∷ cs in
    if p.is_creator then unlinked p.name ∷ cs' else cs'

take_first-other :
    (h : Ptr) (vs : List Ptr)
    → (take_first (λ v. v == h) vs ≡ none)
      ⊎ ((ws : List Ptr) × (take_first (λ v. v == h) vs ≡ some (h, ws)))
take_first-other h [] = inl refl
take_first-other h (v ∷ vs) = elim (Bool-cases (v == h)) [
  | inl e ↦ let same : v ≡ h = ground arith in inr (vs, rw (e, same) refl)
  | inr e ↦ elim (take_first-other h vs) [
    | inl n ↦ inl (rw (e, n) refl)
    | inr (ws, f) ↦ inr (v ∷ ws, rw (e, f) refl)
  ]
]

release_run :
    {M : Type 0} (h : Ptr) (p : ShareMem) (w : World M) (fd k : ℕ)
    → p.file ≡ some fd
    → w.memory.live ≡ suc k
    → release h p w
      ≡ ok (record w {
        structs = update w.structs h none;
        memory = record (w.memory) { live = k };
        calls = released fd p w.calls;
      })
unfolding release
release_run h p w fd k file live = elim (Bool-cases p.is_creator) [
  | inl e ↦ rw (file, e, free_lem w.memory k live) refl
  | inr e ↦ rw (file, e, free_lem w.memory k live) refl
]

-- What a release comes to: a handle that is not listed changes nothing; else the handle is out of the
-- list, its struct is freed, and its mapping, its descriptor and for a creator its name are given back.
abbrev pub Released :
    {M : Type 0}
    → World M
    → (h : Ptr) → ShareMem
    → (fd k : ℕ) → Option (Ptr × List Ptr)
    → Option (Bool × World M)
    → Type 0
Released w h p fd k none r = r ≡ some (false, w)
Released {M} w h p fd k (some found) r =
    (w' : World M) × (r ≡ some (true, w'))
    × ((ps' : List Ptr) × (qs' : List Ptr) × IsList w'.registry ps' qs'
        × (contents w'.registry ps' ≡ found.1))
    × (w'.structs ≡ update w.structs h none)
    × (w'.section ≡ w.section)
    × (w'.memory.live ≡ k)
    × (w'.calls ≡ released fd p w.calls)

module _ {M : Type 0} (ops : Ops M) (thread : ℕ) (w : World M) (ps qs : List Ptr)
    (is : IsList w.registry ps qs) (inside : Option M)
    (enters : enter ops thread w.section ≡ some inside)
    (leaves : leave ops thread inside ≡ w.section) (h : Ptr) (not_null : (h == null) ≡ false)
    (p : ShareMem) (fd k : ℕ) where
  abbrev search_list : Option (Ptr × List Ptr)
  search_list = take_first (λ v. v == h) (contents w.registry ps)

  removed_lem :
      (found : Option (Ptr × List Ptr)) (r : Ptr × Store)
      → Removed w.registry found r
      → ((v : Ptr × List Ptr)
          → found ≡ some v
          → (v.0 ≡ h) × (w.structs h ≡ some p) × (p.file ≡ some fd) × (w.memory.live ≡ suc k))
      → Returns (Released w h p fd k found) (destroy_removed r.0 (record w { registry = r.1 }))
  unfolding destroy_removed
  removed_lem none (v, s') (nothing, same) listed =
      rw nothing (returns (ap (λ x. some (false, record w { registry = x })) same))
  removed_lem (some (x, vs)) (v, s') (hit, limit, held) listed =
      let (own, struct, file, live) = listed (x, vs) refl in
      rw
        (
          hit,
          own,
          not_null,
          struct,
          hit,
          own,
          release_run h p (record w { registry = s' }) fd k file live,
        )
        (returns (_, refl, held, refl, refl, refl, refl))

  -- For a list of objects in order, a thread that enters the critical section and leaves it as it
  -- was, and a handle that is not NULL and that, if it is listed, has a struct with a descriptor
  -- and is a live block: sky_share_memory_destroy returns. If the handle is not listed, it gives
  -- false and nothing has changed. Otherwise it gives true; the handle is out of the list and the
  -- others keep their order, its struct is freed, and its mapping, then its descriptor, and for a
  -- creator its name are given back.
  pub share_memory_destroy_lem :
      ((vs : List Ptr)
        → search_list ≡ some (h, vs)
        → (w.structs h ≡ some p) × (p.file ≡ some fd) × (w.memory.live ≡ suc k))
      → Returns (Released w h p fd k search_list) (destroy ops thread h w)
  unfolding destroy remove
  share_memory_destroy_lem listed =
      rw (destroy, enters, leaves)
        (bind (remove_if_lem w.registry ps qs (λ v. v == h) is)
          (λ r removed. removed_lem search_list r removed own))
    where
      own :
          (v : Ptr × List Ptr)
          → search_list ≡ some v
          → (v.0 ≡ h) × (w.structs h ≡ some p) × (p.file ≡ some fd) × (w.memory.live ≡ suc k)
      own v e = elim (take_first-other h (contents w.registry ps)) [
        | inl n ↦ let clash = sym n ∙ e in absurd (cc)
        | inr (vs, f) ↦
            subst
              (λ v.
                (v.0 ≡ h) × (w.structs h ≡ some p) × (p.file ≡ some fd) × (w.memory.live ≡ suc k))
              (some-injective (sym f ∙ e))
              (let (struct, file, live) = listed vs f in (refl, struct, file, live))
      ]
