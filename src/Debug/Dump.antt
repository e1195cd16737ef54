-- ===== src/Debug/Dump.antt =====
-- What sky_log_print_buf writes, and when it leaves its buffer (sky/src/sky_debug.c).
use skysdk.Base.{
  ℕ, zero, suc, ◌+◌, ◌*◌, ◌/◌, ◌%◌, ◌<◌, ◌≤◌, ◌≡◌, ◌⊎◌, refl, sym, ap, ◌∙◌, inl, inr, Bool, true,
  false, ltb, leb, leb→le, Bool-cases, lt→ltb, none, List, [], ◌∷◌, ◌++◌, length, length-append,
  take, if◌then◌else◌, ok, fault, arith,
}
use mathlib.Core.List.{append-nil, append_assoc}
use skysdk.Str.{digit}
use skysdk.Debug.{Output, sys_logged, printed, dump_loop, print_buf}

-- two digits and a blank for each byte
abbrev pub dump : List ℕ → List ℕ
dump [] = []
dump (b ∷ bs) = digit (b / 16) ∷ digit (b % 16) ∷ 32 ∷ dump bs

not_less : (a b : ℕ) → b ≤ a → ltb a b ≡ false
not_less a b le = ground (arith, le)

longer :
    (b : ℕ) (out : List ℕ)
    → length (out ++ digit (b / 16) ∷ digit (b % 16) ∷ 32 ∷ []) ≡ length out + 3
longer b out = length-append out (digit (b / 16) ∷ digit (b % 16) ∷ 32 ∷ [])

dump_loop_lem :
    (len : ℕ) (buf out : List ℕ)
    → len ≤ length buf
    → length out + 3 * len ≤ 1023
    → dump_loop len buf out ≡ ok (out ++ dump (take len buf))
unfolding dump_loop
dump_loop_lem zero buf out enough room = ap ok (sym (append-nil out))
dump_loop_lem (suc len) [] out enough room = absurd (omega (arith, enough))
dump_loop_lem (suc len) (b ∷ bs) out enough room =
    rw
      (
        lt→ltb (length out) 1024 (omega (arith, room)),
        not_less 1024 (length out + 4) (omega (arith, room)),
      )
      (dump_loop_lem len bs (out ++ digit (b / 16) ∷ digit (b % 16) ∷ 32 ∷ [])
          (omega (arith, enough)) (omega (arith, room, longer b out))
        ∙ ap ok (append_assoc out (digit (b / 16) ∷ digit (b % 16) ∷ 32 ∷ []) (dump (take len bs))))

-- with `k` bytes left to the end of the buffer, one more leaves it
dump_loop_overflow :
    (k len : ℕ) (buf out : List ℕ)
    → len ≤ length buf
    → k < len
    → length out + 3 * k ≡ 1023
    → dump_loop len buf out ≡ fault
unfolding dump_loop
dump_loop_overflow k zero buf out enough more full = absurd (omega (arith, more))
dump_loop_overflow k (suc len) [] out enough more full = absurd (omega (arith, enough))
dump_loop_overflow zero (suc len) (b ∷ bs) out enough more full =
    rw
      (
        lt→ltb (length out) 1024 (omega (arith, full)),
        lt→ltb 1024 (length out + 4) (omega (arith, full)),
      )
      refl
dump_loop_overflow (suc k) (suc len) (b ∷ bs) out enough more full =
    rw
      (
        lt→ltb (length out) 1024 (omega (arith, full)),
        not_less 1024 (length out + 4) (omega (arith, full)),
      )
      (dump_loop_overflow k len bs (out ++ digit (b / 16) ∷ digit (b % 16) ∷ 32 ∷ [])
        (omega (arith, enough)) (omega (arith, more)) (omega (arith, full, longer b out)))

length-dump : (bs : List ℕ) → length (dump bs) ≡ 3 * length bs
length-dump [] = omega arith
length-dump (b ∷ bs) = omega (arith, length-dump bs)

length-take : (n : ℕ) (bs : List ℕ) → length (take n bs) ≤ n
length-take zero bs = omega arith
length-take (suc n) [] = omega arith
length-take (suc n) (b ∷ bs) = omega (arith, length-take n bs)

-- where the text of sky_log_print_buf goes
abbrev pub written : Bool → List ℕ → Output
written true text = sys_logged 5 text
written false text = printed none text

-- For a length within the buffer it is given, sky_log_print_buf writes two digits and a blank for
-- each byte, to syslog or to the standard output, if the length is at most 341; and if it is more,
-- it writes behind the end of its own buffer.
pub print_buf_lem :
    (background : Bool) (buf : List ℕ) (len : ℕ)
    → len ≤ length buf
    → ((len ≤ 341) × (print_buf background buf len ≡ ok (written background (dump (take len buf)))))
      ⊎ ((341 < len) × (print_buf background buf len ≡ fault))
unfolding print_buf
print_buf_lem background buf len enough = elim (Bool-cases (leb len 341)) [
  | inl few ↦
      let small = leb→le len 341 few in
      inl (
        small,
        rw
            (
              dump_loop_lem len buf [] enough (omega (arith, small)),
              lt→ltb (length (dump (take len buf))) 1024
                  (omega (arith, small, length-dump (take len buf), length-take len buf)),
            )
            (elim background
              as (λ c.
                ok (
                  if c
                  then sys_logged 5 (dump (take len buf))
                  else printed none (dump (take len buf)))
                ≡ ok (written c (dump (take len buf)))) [ true ↦ refl | false ↦ refl ]),
      )
  | inr many ↦ inr (
    ground arith,
    rw (dump_loop_overflow 341 len buf [] enough (ground arith) (omega arith)) refl,
  )
]
