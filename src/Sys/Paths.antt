-- ===== src/Sys/Paths.antt =====
-- The functions of sky/src/sky_sys.c that give the name and the directory of the program.
use skysdk.Base.{
  ℕ, suc, ◌+◌, ◌-◌, ◌<◌, ◌≡◌, refl, ap, ◌==◌, ◌||◌, ltb, lt→ltb, Bool, true, false, none, some,
  List, [], ◌∷◌, ◌++◌, length, length-append, take, drop, if◌then◌else◌, arith,
}
use skysdk.Sys.{failed, done, last_slash, get_process_name, get_process_directory}

-- a slash among the characters
abbrev pub has_slash : List ℕ → Bool
has_slash [] = false
has_slash (c ∷ cs) = (c == 47) || has_slash cs

none_lem : (name : List ℕ) → has_slash name ≡ false → last_slash name ≡ none
unfolding last_slash
none_lem [] clean = refl
none_lem (c ∷ cs) clean =
    let e : (c == 47) ≡ false = ground arith in rw (none_lem cs (ground arith), e) refl

last_slash_lem :
    (dir name : List ℕ) → has_slash name ≡ false → last_slash (dir ++ 47 ∷ name) ≡ some (length dir)
unfolding last_slash
last_slash_lem [] name clean = rw (none_lem name clean) refl
last_slash_lem (c ∷ dir) name clean = rw (last_slash_lem dir name clean) refl

take-append : (xs ys : List ℕ) → take (length xs) (xs ++ ys) ≡ xs
take-append [] ys = refl
take-append (x ∷ xs) ys = ap (λ r. x ∷ r) (take-append xs ys)

take-all : (xs : List ℕ) → take (length xs) xs ≡ xs
take-all [] = refl
take-all (x ∷ xs) = ap (λ r. x ∷ r) (take-all xs)

drop-append : (xs ys : List ℕ) → drop (length xs) (xs ++ ys) ≡ ys
drop-append [] ys = refl
drop-append (x ∷ xs) ys = drop-append xs ys

drop-slash : (xs ys : List ℕ) → drop (suc (length xs)) (xs ++ 47 ∷ ys) ≡ ys
drop-slash [] ys = refl
drop-slash (x ∷ xs) ys = drop-slash xs ys

module _ (d : ℕ) (dir name : List ℕ) (len : ℕ) (clean : has_slash name ≡ false)
    (room : 1 < len) where
  -- When the link's target is a directory that is not empty, a slash, and a name without a slash,
  -- and the buffer has room for more than one character, sky_sys_get_process_name gives the name
  -- and its length and sky_sys_get_process_directory the directory and its length, each or the
  -- code -5 if the buffer has no room for the text and its end.
  pub process_path_lem :
      (get_process_name true len (some (d ∷ dir ++ 47 ∷ name))
        ≡ (if ltb len (length name + 1) then failed 5 else done (length name) name))
      × (get_process_directory true len (some (d ∷ dir ++ 47 ∷ name)) ≡ (
          if ltb len (length (d ∷ dir) + 1) then failed 5 else done (length (d ∷ dir)) (d ∷ dir)))
  unfolding get_process_name get_process_directory
  process_path_lem =
      let slash = last_slash_lem (d ∷ dir) name clean in
      let long = lt→ltb 1 len room in
      let later : (suc (length dir) == 0) ≡ false = ground arith in
      let size : length (d ∷ dir ++ 47 ∷ name) - (suc (length dir) + 1) ≡ length name =
        omega (arith, length-append {0} dir (47 ∷ name)) in
      let behind : suc (length dir) + 1 ≡ suc (suc (length dir)) = omega arith in
      (
        rw (long, slash, later, size, behind, drop-slash dir name, take-all name) refl,
        rw (long, slash, later, take-append dir (47 ∷ name)) refl,
      )
