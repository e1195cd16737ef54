-- ===== src/SkyList/Tests.antt =====
-- Runs of the operations of sky/src/sky_list.c on a list of two items with a spare one.
use skysdk.Base.{
  List, ◌≡◌, refl, ◌==◌, ltb, not, if◌then◌else◌, ◌&&◌, Bool, false, none, some, [], ◌∷◌, get_elem?,
  ok, Returns, returns, returns_at, arith,
}
use skysdk.SkyList.{Ptr, null, Heap, Store}
use skysdk.SkyList.Front.{max_size, push_front}
use skysdk.SkyList.Scan.{insert, destroy, find_if, contain, get_at}
use skysdk.SkyList.Addresses.{has}
use skysdk.SkyList.Destroy.{Gone, list_destroy_lem}
use skysdk.SkyList.Calls.{
  Call, push_front_call, insert_call, pop_back_call, perform_all, Allocated, answers,
}
use skysdk.SkyList.Histories.{Refines, perform_all-Refines}
use skysdk.SkyList.Rep.{IsList, contents}
use skysdk.SkyList.Pop.{take_first, data_of}
use skysdk.SkyList.Reads.{query_lem}

-- 1 is the head, 2 the tail, 3 and 4 the items with the data 10 and 20, and 5 is spare
abbrev memory : Heap
memory = record {
  alive = λ p. if p == 0 then false else ltb p 6;
  item = λ p. if p == 3 then 10 else if p == 4 then 20 else null;
  next = λ p. if p == 1 then 3 else if p == 3 then 4 else if p == 4 then 2 else null;
  prev = λ p. if p == 2 then 4 else if p == 4 then 3 else if p == 3 then 1 else null;
}

abbrev two : Store
two = record {
  list = record { head = 1; tail = 2; prealloc = 5; count = 2; max_size = 3 };
  heap = memory;
}

two-IsList : IsList two (3 ∷ 4 ∷ []) (5 ∷ [])
two-IsList = record {
  linked = (refl, refl, refl, (refl, refl, refl, (refl, refl)));
  spare = (refl, refl, refl);
  distinct = (refl, (refl, (refl, (refl, (refl, tt)))));
  head_alive = refl;
  tail_alive = refl;
  null_dead = refl;
  tail_end = refl;
  counted = refl;
  bounded = omega arith;
}

abbrev above_10 : Ptr → Bool
above_10 v = not (v == 10)

query_lem_example :
    (find_if two above_10 ≡ ok (data_of (take_first above_10 (contents two (3 ∷ 4 ∷ [])))))
    × (contain two 20 ≡ ok (not (20 == null) && has 20 (contents two (3 ∷ 4 ∷ []))))
    × (get_at two 1
        ≡ ok (elim (get_elem? (contents two (3 ∷ 4 ∷ [])) 1) [ none ↦ null | some v ↦ v ]))
query_lem_example = query_lem two (3 ∷ 4 ∷ []) (5 ∷ []) above_10 20 1 two-IsList

list_destroy_lem_example : Returns (Gone two.heap (1 ∷ 2 ∷ 3 ∷ 4 ∷ 5 ∷ [])) (destroy 2 two)
list_destroy_lem_example = list_destroy_lem two (3 ∷ 4 ∷ []) (5 ∷ []) 2 two-IsList (omega arith)

abbrev two_calls : List (Call × Ptr)
two_calls = (push_front_call 30, 6) ∷ (insert_call 1 40, 6) ∷ (pop_back_call, 7) ∷ []

two-Allocated : Allocated two_calls two
unfolding push_front insert
two-Allocated = (
  refl,
  refl,
  λ r e.
      returns_at {P = λ r. Allocated ((insert_call 1 40, 6) ∷ (pop_back_call, 7) ∷ []) r.1}
        (returns (
          refl,
          refl,
          λ r e.
              returns_at {P = λ r. Allocated ((pop_back_call, 7) ∷ []) r.1}
                (returns (refl, refl, λ r e. tt)) e,
        ))
        e,
)

perform_all-Refines_example :
    Returns
      (Refines (max_size two) (
        answers
          (max_size two)
          (push_front_call 30 ∷ insert_call 1 40 ∷ pop_back_call ∷ [])
          (contents two (3 ∷ 4 ∷ []))))
      (perform_all two_calls two)
perform_all-Refines_example =
    perform_all-Refines two_calls two (3 ∷ 4 ∷ []) (5 ∷ []) two-IsList two-Allocated
