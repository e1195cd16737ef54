-- ===== src/Str/Buffers.antt =====
-- What sky_str_cpy and sky_str_cat leave in a buffer (sky/src/sky_str.c).
use skysdk.Base.{
  ℕ, zero, suc, ◌+◌, ◌-◌, ◌%◌, ◌<◌, ◌≤◌, ◌≡◌, ◌⊎◌, refl, ap, inl, inr, ltb, lt→ltb, List, [], ◌∷◌,
  ◌++◌, Str, length, length-append, take, if◌then◌else◌, Run, ok, fault, ◌>>=◌, arith,
}
use skysdk.Str.{zeros, cpy, cat}

-- none of the characters is a NUL
abbrev pub IsText : Str → Type 0
IsText [] = Unit
IsText (c ∷ cs) = (0 < c) × IsText cs

-- a NUL or the n-th byte stands in the buffer
abbrev pub Readable : List ℕ → ℕ → Type 0
Readable src zero = Unit
Readable [] (suc n) = ⊥
Readable (zero ∷ src) (suc n) = Unit
Readable (suc c ∷ src) (suc n) = Readable src n

length-zeros : (n : ℕ) → length (zeros n) ≡ n
length-zeros zero = refl
length-zeros (suc n) = ap suc (length-zeros n)

pub cpy_returns :
    (src : List ℕ) (n : ℕ)
    → Readable src n
    → (dst : List ℕ) × (cpy src n ≡ ok dst) × (length dst ≡ n)
unfolding cpy
cpy_returns src zero readable = ([], refl, refl)
cpy_returns [] (suc n) readable = absurd readable
cpy_returns (zero ∷ src) (suc n) readable = (zeros (suc n), refl, length-zeros (suc n))
cpy_returns (suc c ∷ src) (suc n) readable =
    let (dst, run, size) = cpy_returns src n readable in (suc c ∷ dst, rw run refl, ap suc size)

-- what follows the first NUL is not read
pub cpy_cut :
    (text : Str) (rest rest' : List ℕ) (n : ℕ)
    → cpy (text ++ 0 ∷ rest) n ≡ cpy (text ++ 0 ∷ rest') n
unfolding cpy
cpy_cut text rest rest' zero = refl
cpy_cut [] rest rest' (suc n) = refl
cpy_cut (zero ∷ text) rest rest' (suc n) = refl
cpy_cut (suc c ∷ text) rest rest' (suc n) = rw (cpy_cut text rest rest' n) refl

-- A string that is shorter than `count` is copied with NULs behind it; of any other the first `count`
-- characters are, and no NUL.
abbrev pub Copied : Str → (count : ℕ) → Run (List ℕ) → Type 0
Copied src count r =
    ((length src < count) × (r ≡ ok (src ++ zeros (count - length src))))
    ⊎ ((count ≤ length src) × (r ≡ ok (take count src)))

Copied-cons :
    (c : ℕ) (src : Str) (n : ℕ) (r : Run (List ℕ))
    → Copied src n r
    → Copied (c ∷ src) (suc n) (r >>= λ rest. ok (c ∷ rest))
Copied-cons c src n r (inl (short, run)) =
    let same : n - length src ≡ suc n - suc (length src) = omega arith in
    inl (omega (arith, short), rw run (ap (λ k. ok (c ∷ src ++ zeros k)) same))
Copied-cons c src n r (inr (long, run)) = inr (omega (arith, long), rw run refl)

cpy_lem :
    (src : Str) (rest : List ℕ) (count : ℕ)
    → IsText src
    → Copied src count (cpy (src ++ 0 ∷ rest) count)
unfolding cpy
cpy_lem src rest zero text = inr (omega arith, refl)
cpy_lem [] rest (suc n) text =
    let same : suc n ≡ suc n - 0 = omega arith in inl (omega arith, ap (λ k. ok (zeros k)) same)
cpy_lem (zero ∷ src) rest (suc n) text = absurd (omega (arith, text.0))
cpy_lem (suc c ∷ src) rest (suc n) text = Copied-cons (suc c) src n _ (cpy_lem src rest n text.1)

length-take : (n : ℕ) (xs : List ℕ) → length (take n xs) ≤ n
length-take zero xs = omega arith
length-take (suc n) [] = omega arith
length-take (suc n) (x ∷ xs) = omega (arith, length-take n xs)

take_all : (n : ℕ) (xs : List ℕ) → length xs ≤ n → take n xs ≡ xs
take_all zero [] le = refl
take_all zero (x ∷ xs) le = absurd (omega (arith, le))
take_all (suc n) [] le = refl
take_all (suc n) (x ∷ xs) le = ap (λ ys. x ∷ ys) (take_all n xs (omega (arith, le)))

fits :
    (size : ℕ) (text : Str)
    → length text < size
    → (if ltb (length text) size then ok text else fault) ≡ ok text
fits size text lt = rw (lt→ltb (length text) size lt) refl

-- with a count of 0 the whole string is appended
abbrev pub Appended : (size : ℕ) → (dst src : Str) → (count : ℕ) → Type 0
Appended size dst src count =
    ((0 < count) × (cat size dst src count ≡ ok (dst ++ take (count - 1) src)))
    ⊎ ((count ≡ 0)
        × (cat size dst src count
            ≡ (if ltb (length (dst ++ src)) size then ok (dst ++ src) else fault)))

cat_lem :
    (size : ℕ) (dst src : Str) (count : ℕ)
    → count < 0x1_0000_0000
    → length src < 0x1_0000_0000
    → length dst + count ≤ size
    → Appended size dst src count
unfolding cat
cat_lem size dst src zero small short room =
    inr (refl, rw (take_all 0xffff_ffff src (omega (arith, short))) refl)
cat_lem size dst src (suc n) small short room =
    let cut : (suc n + 0xffff_ffff) % 0x1_0000_0000 ≡ n = omega (arith, small) in
    let same : suc n - 1 ≡ n = omega arith in
    inl (
      omega arith,
      rw (cut, same)
          (fits size (dst ++ take n src)
            (omega (arith, room, length-append dst (take n src), length-take n src))),
    )

-- For a source without a NUL before its end, a source and a count below 2^32, and a buffer with
-- room for `count` bytes behind the string in it. sky_str_cpy copies a string shorter than `count`
-- and fills up with NULs, and of a longer one the first `count` characters with no NUL.
-- sky_str_cat appends at most `count - 1` characters and stays within the buffer, except for a
-- count of 0, where it appends the whole string and leaves the buffer if that does not fit.
pub buffers_lem :
    (src : Str) (rest : List ℕ) (size : ℕ) (dst : Str) (count : ℕ)
    → IsText src
    → count < 0x1_0000_0000
    → length src < 0x1_0000_0000
    → length dst + count ≤ size
    → Copied src count (cpy (src ++ 0 ∷ rest) count) × Appended size dst src count
buffers_lem src rest size dst count text small short room =
    (cpy_lem src rest count text, cat_lem size dst src count small short room)
