-- ===== src/Memory.antt =====
-- The allocator as the SDK sees it: sky_mem_alloc and sky_mem_free (sky/src/sky_mem.c) and the
-- malloc, realloc and free of the C library. Which requests are granted is a parameter, and the
-- number of live blocks is counted, so that a leak or a missing free shows in the count.
use skysdk.Base.{
  ℕ, suc, ◌+◌, ◌-◌, ◌≡◌, refl, ap, ◌⊎◌, inl, inr, Bool-cases, Bool, true, false, if◌then◌else◌,
  ◌==◌, Run, ok, fault, arith,
}

pub record Memory : Type 0 where
  -- whether the n-th request succeeds
  pub grants : ℕ → Bool
  pub requests : ℕ
  -- the blocks that are allocated and not yet freed
  pub live : ℕ

-- malloc and sky_mem_alloc: whether the block was granted
unfoldable pub alloc : Memory → Bool × Memory
alloc m =
    if m.grants m.requests
    then (true, record m { requests = m.requests + 1; live = m.live + 1 })
    else (false, record m { requests = m.requests + 1 })

-- realloc of a block that is not null: the number of blocks stays
unfoldable pub realloc : Memory → Bool × Memory
realloc m = (m.grants m.requests, record m { requests = m.requests + 1 })

-- free and sky_mem_free of a block; with no live block it is a double free
unfoldable pub free : Memory → Run Memory
free m = if m.live == 0 then fault else ok (record m { live = m.live - 1 })

-- the memory behind a request that is granted, and behind one that is not
abbrev pub more : Memory → Memory
more m = record m { requests = m.requests + 1; live = m.live + 1 }

abbrev pub asked : Memory → Memory
asked m = record m { requests = m.requests + 1 }

pub alloc_lem : (m : Memory) → (alloc m ≡ (true, more m)) ⊎ (alloc m ≡ (false, asked m))
unfolding alloc
alloc_lem m = elim (Bool-cases (m.grants m.requests)) [
  | inl e ↦ inl (rw e refl)
  | inr e ↦ inr (rw e refl)
]

pub refusal : (m : Memory) → alloc m ≡ (false, asked m) → m.grants m.requests ≡ false
unfolding alloc
refusal m refused = elim (Bool-cases (m.grants m.requests)) [
  | inl e ↦ let h : true ≡ false = ap (λ r. r.0) (rw e at refused) in absurd (cc)
  | inr e ↦ e
]

-- a free with a live block gives one block back
pub free_lem : (m : Memory) (k : ℕ) → m.live ≡ suc k → free m ≡ ok (record m { live = k })
unfolding free
free_lem m k h = rw h (ground arith)
