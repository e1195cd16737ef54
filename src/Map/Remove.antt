-- ===== src/Map/Remove.antt =====
-- The else branch of sky_map_delete (sky/src/sky_map.c).
use mathlib.Core.Path.{subst}
use mathlib.Core.List.{append_assoc, map-append}
use skysdk.Base.{
  ℕ, suc, ◌+◌, ◌-◌, ◌*◌, ◌≡◌, refl, ap, sym, ◌∙◌, some, List, [], ◌∷◌, ◌++◌, map, Str, length,
  length-map, length-append, ok, Returns, arith,
}
use skysdk.Memory.{Memory, free_lem}
use skysdk.Map.{Slot, wild, str, Vector, State}
use skysdk.Map.Storage.{block, free_slot}
use skysdk.Map.Entries.{free_at, remove_at}
use skysdk.Map.Rep.{Entries, key_list, value_list, strs, Holds, owned, Policy, IsValid}
use skysdk.Map.Vectors.{write_at, read_at, move_down_at}
use skysdk.Map.Growth.{filter_after, decrease_storage-IsValid}

free_at_lem :
    (ss : List Str) (i : ℕ) (s : Str) (t : List Slot) (m : Memory) (k : ℕ)
    → i ≡ length ss
    → m.live ≡ suc k
    → free_at (strs ss ++ str s ∷ t) i m ≡ ok (strs ss ++ wild ∷ t, record m { live = k })
unfolding free_at
free_at_lem ss i s t m k at b =
    rw (
      free_at,
      read_at ss i at (str s) t,
      free_slot,
      free_lem m k b,
      write_at ss i at (str s) wild t,
    )

-- an array that holds strings, taken apart at one of them
Holds-split :
    (ss : List Str) (x : Str) (ts : List Str) (v : Vector)
    → Holds (ss ++ x ∷ ts) v
    → (t : List Slot) × (v ≡ some (strs ss ++ str x ∷ (strs ts ++ t)))
Holds-split [] x ts v (t, e) = (t, e)
Holds-split (s ∷ ss) x ts v (t, e) = (
  t,
  e
      ∙ ap some (
          ap (λ l. l ++ t) (map-append str (s ∷ ss) (x ∷ ts))
          ∙ append_assoc (strs (s ∷ ss)) (strs (x ∷ ts)) t),
)

-- a projection of the entries, taken apart at one of them
pub Holds-at :
    (f : Str × Str → Str) (pre : Entries) (e : Str × Str) (post : Entries) (v : Vector)
    → Holds (map f (pre ++ e ∷ post)) v
    → (t : List Slot) × (v ≡ some (strs (map f pre) ++ str (f e) ∷ (strs (map f post) ++ t)))
Holds-at f pre e post v h =
    Holds-split (map f pre) (f e) (map f post) v
      (subst (λ l. Holds l v) (map-append f pre (e ∷ post)) h)

Holds-join :
    (ss : List Str) (x : Str) (ts : List Str) (v : Vector) (t : List Slot)
    → v ≡ some (strs ss ++ str x ∷ (strs ts ++ t))
    → Holds (ss ++ x ∷ ts) v
Holds-join [] x ts v t e = (t, e)
Holds-join (s ∷ ss) x ts v t e = (
  t,
  e
      ∙ sym (
          ap some (
            ap (λ l. l ++ t) (map-append str (s ∷ ss) (x ∷ ts))
            ∙ append_assoc (strs (s ∷ ss)) (strs (x ∷ ts)) t)),
)

-- and put together again
pub Holds-from :
    (f : Str × Str → Str) (pre : Entries) (e : Str × Str) (post : Entries) (v : Vector)
    (t : List Slot)
    → v ≡ some (strs (map f pre) ++ str (f e) ∷ (strs (map f post) ++ t))
    → Holds (map f (pre ++ e ∷ post)) v
Holds-from f pre e post v t h =
    subst (λ l. Holds l v) (sym (map-append f pre (e ∷ post)))
      (Holds-join (map f pre) (f e) (map f post) v t h)

pub owned-middle :
    (pre : Entries) (e : Str × Str) (post : Entries)
    → owned (pre ++ e ∷ post) ≡ 5 + 2 * length (pre ++ post)
owned-middle [] e post = omega arith
owned-middle (x ∷ pre) e post =
    omega (arith, length-append {0} pre (e ∷ post), length-append {0} pre post)

module _ (g : Policy) (other : ℕ) (pre : Entries) (e : Str × Str) (post : Entries) (s : State)
    (i : ℕ) where
  pub remove_at-IsValid :
      i ≡ length pre
      → IsValid g other (pre ++ e ∷ post) s
      → Returns
          (λ s'.
            IsValid g other (pre ++ post) s'
            × (s'.map.filter ≡ filter_after (pre ++ post) s.map.filter))
          (remove_at s i)
  unfolding remove_at
  remove_at-IsValid at valid =
      let (t, ke) = Holds-at (λ e. e.0) pre e post s.map.keys valid.rep.keys in
      let (u, ve) = Holds-at (λ e. e.1) pre e post s.map.values valid.rep.values in
      let total : s.map.count ≡ length pre + suc (length post) =
        valid.rep.counted ∙ length-append pre (e ∷ post) in
      let k_at : i ≡ length (key_list pre) = at ∙ sym (length-map (λ e. e.0) pre) in
      let v_at : i ≡ length (value_list pre) = at ∙ sym (length-map (λ e. e.1) pre) in
      let k_rest : s.map.count - i - 1 ≡ length (key_list post) =
        omega (arith, length-map {0, 0} (λ (e : Str × Str). e.0) post) in
      let v_rest : s.map.count - i - 1 ≡ length (value_list post) =
        omega (arith, length-map {0, 0} (λ (e : Str × Str). e.1) post) in
      let live = other + 3 + 2 * length (pre ++ post) in
      let b : s.mem.live ≡ suc (suc live) = omega (arith, owned-middle pre e post) in
      let (t', k_moved) = move_down_at (key_list pre) i k_at wild (key_list post) _ t k_rest in
      let (u', v_moved) = move_down_at (value_list pre) i v_at wild (value_list post) _ u v_rest in
      rw
        (
          ke,
          ve,
          block,
          free_at_lem (key_list pre) i e.0 (strs (key_list post) ++ t) s.mem (suc live) k_at b,
          free_at_lem (value_list pre) i e.1 (strs (value_list post) ++ u)
              (record (s.mem) { live = suc live }) live v_at refl,
          k_moved,
          v_moved,
        )
        (decrease_storage-IsValid g other (pre ++ post) _ t' u'
          (omega (arith, length-append {0} pre post)) valid.policy
          (ap (λ l. some (strs l ++ t')) (sym (map-append (λ e. e.0) pre post)))
          (ap (λ l. some (strs l ++ u')) (sym (map-append (λ e. e.1) pre post))) refl)
