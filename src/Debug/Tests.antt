-- ===== src/Debug/Tests.antt =====
-- Lines and a dump of the log (sky/src/sky_debug.c).
use skysdk.Base.{ℕ, ◌<◌, ◌≤◌, ◌≡◌, ◌⊎◌, false, List, [], ◌∷◌, take, ok, fault, arith}
use skysdk.Debug.{print_buf}
use skysdk.Debug.Dump.{dump, written, print_buf_lem}

abbrev bytes : List ℕ
bytes = 0 ∷ 171 ∷ 255 ∷ []

print_buf_lem_example :
    ((2 ≤ 341) × (print_buf false bytes 2 ≡ ok (written false (dump (take 2 bytes)))))
    ⊎ ((341 < 2) × (print_buf false bytes 2 ≡ fault))
print_buf_lem_example = print_buf_lem false bytes 2 (omega arith)
