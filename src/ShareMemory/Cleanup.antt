-- ===== src/ShareMemory/Cleanup.antt =====
-- The failing branches of sky_share_memory_create and sky_share_memory_open (sky/src/sky_ipc_shm.c)
-- give back what they hold.
use skysdk.Base.{
  ℕ, suc, ◌==◌, ◌≡◌, refl, ◌∙◌, Bool, true, false, Bool-cases, Option-cases, inl, inr, List, Str,
  ok, arith,
}
use skysdk.Memory.{free_lem}
use skysdk.SkyList.{Ptr}
use skysdk.ShareMemory.{map_failed, ShareMem, Syscall, World, give_up}
use skysdk.ShareMemory.Resources.{
  open_count, map_count, link_count, same_area, IsMapping, Holds, Balanced, unmapping, closing,
}

-- giving up a struct of which the descriptor and whether it is mapped are known
pub give_up_run :
    {M : Type 0} (p : ShareMem) (w : World M) (k : ℕ)
    → w.memory.live ≡ suc k
    → give_up p w
      ≡ ok (record w {
        memory = record (w.memory) { live = k };
        calls = closing p (unmapping p w.calls);
      })
unfolding give_up
give_up_run p w k live = elim (Bool-cases (p.ptr == map_failed)) [
  | inl e ↦ elim (Option-cases p.file) [
    | inl f ↦ rw (e, f, e, free_lem w.memory k live) refl
    | inr (fd, f) ↦ rw (e, f, e, free_lem w.memory k live) refl
  ]
  | inr e ↦ elim (Option-cases p.file) [
    | inl f ↦ rw (e, f, e, free_lem w.memory k live) refl
    | inr (fd, f) ↦ rw (e, f, e, free_lem w.memory k live) refl
  ]
]

module _ (creator : Bool) (cs cs' : List Syscall) (p : ShareMem)
    (holds : Holds creator cs cs' p) where
  open-unmapping : (fd : ℕ) → open_count fd (unmapping p cs') ≡ open_count fd cs'
  unfolding open_count
  open-unmapping fd = elim (Bool-cases (p.ptr == map_failed)) [
    | inl e ↦ rw e refl
    | inr e ↦ rw e refl
  ]

  link-unmapping : (j : Str) → link_count j (unmapping p cs') ≡ link_count j cs'
  unfolding link_count
  link-unmapping j = elim (Bool-cases (p.ptr == map_failed)) [
    | inl e ↦ rw e refl
    | inr e ↦ rw e refl
  ]

  open-closing : (fd : ℕ) → open_count fd (closing p (unmapping p cs')) ≡ open_count fd cs
  unfolding open_count
  open-closing fd = elim (Option-cases p.file) [
    | inl f ↦ let h = rw f at (holds.files fd) in rw (f, open-unmapping fd) (ground (arith, h))
    | inr (e, f) ↦ let h = rw f at (holds.files fd) in rw (f, open-unmapping fd) (ground (arith, h))
  ]

  link-closing :
      creator ≡ true → (j : Str) → link_count j (closing p (unmapping p cs')) ≡ link_count j cs
  unfolding link_count
  link-closing c j = elim (Option-cases p.file) [
    | inl f ↦ let h = rw f at (holds.names c j) in rw (f, link-unmapping j) (ground (arith, h))
    | inr (e, f) ↦ let h = rw f at (holds.names c j) in rw (f, link-unmapping j) (ground (arith, h))
  ]

  map-unmapping :
      (q : Ptr) (n : ℕ) → IsMapping q → map_count q n (unmapping p cs') ≡ map_count q n cs
  unfolding map_count
  map-unmapping q n good = elim (Bool-cases (p.ptr == map_failed)) [
    | inl e ↦
        let other : (p.ptr == q) ≡ false = elim (Bool-cases (p.ptr == q)) [
          | inl same ↦ absurd (good.1 (ground (arith, same, e)))
          | inr apart ↦ apart
        ] in
        rw e (rw other at (holds.areas q n good) ∙ omega arith)
    | inr e ↦ elim (Bool-cases (same_area p.ptr p.size q n)) [
      | inl same ↦ let h = rw same at (holds.areas q n good) in rw (e, same) (omega (arith, h))
      | inr apart ↦ let h = rw apart at (holds.areas q n good) in rw (e, apart) (omega (arith, h))
    ]
  ]

  map-closing :
      (q : Ptr) (n : ℕ)
      → IsMapping q
      → map_count q n (closing p (unmapping p cs')) ≡ map_count q n cs
  unfolding map_count
  map-closing q n good = elim (Option-cases p.file) [
    | inl f ↦ rw f (map-unmapping q n good)
    | inr (e, f) ↦ rw f (map-unmapping q n good)
  ]

  pub give_up-Balanced : Balanced creator cs (closing p (unmapping p cs'))
  give_up-Balanced = record { files = open-closing; areas = map-closing; names = link-closing }
