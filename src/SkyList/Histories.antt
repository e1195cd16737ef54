-- ===== src/SkyList/Histories.antt =====
-- Any history of calls on a list (sky/src/sky_list.c) against the bounded sequence.
use skysdk.Base.{
  ℕ, ◌≡◌, refl, ap, sym, ◌∙◌, ◌==◌, inl, inr, Bool, true, false, Option, none, some, List, [], ◌∷◌,
  ◌++◌, take, drop, length, length-map, map, Run, ok, Returns, returns, bind, arith,
}
use skysdk.SkyList.{Ptr, null, Store}
use skysdk.SkyList.Front.{max_size, full}
use skysdk.SkyList.Rep.{IsList, contents}
use skysdk.SkyList.Push.{Pushed, push_front_lem, push_back_lem}
use skysdk.SkyList.At.{insert_lem}
use skysdk.SkyList.Pop.{Removed, take_first, take_last, pop_front_lem, pop_back_lem}
use skysdk.SkyList.Find.{remove_if_lem}
use skysdk.SkyList.Clear.{clear_lem}
use skysdk.SkyList.Calls.{
  Call, push_front_call, push_back_call, insert_call, pop_front_call, pop_back_call, remove_call,
  clear_call, Answer, accepted, taken, perform, perform_all, Allocated, put_in, take_out, answer,
  answers,
}

-- a list in order that answers as the sequence does
abbrev Answered : (limit : ℕ) → Answer × List Ptr → Answer × Store → Type 0
Answered limit wanted (a, t) =
    (a ≡ wanted.0)
    × (max_size t ≡ limit)
    × ((ps : List Ptr) × (qs : List Ptr) × IsList t ps qs × (contents t ps ≡ wanted.1))

module _ (s : Store) (ps qs : List Ptr) (is : IsList s ps qs) where
  full-length : (length (contents s ps) == max_size s) ≡ full s
  unfolding full max_size
  full-length =
      let e : length (contents s ps) ≡ s.list.count = length-map s.heap.item ps ∙ sym is.counted in
      ap (λ n. n == s.list.max_size) e

  Pushed-Answered :
      (fresh : Ptr) (new : List Ptr) (r : Bool × Store)
      → (fresh == null) ≡ false
      → Pushed s qs fresh new r
      → Answered (max_size s) (put_in (max_size s) (contents s ps) new) (accepted r.0, r.1)
  Pushed-Answered fresh new (false, s') ne (same, inl limit) =
      rw (full-length, limit, same) (refl, refl, (ps, qs, is, refl))
  Pushed-Answered fresh new (false, s') ne (same, inr starved) = absurd (ground (arith, starved.0))
  Pushed-Answered fresh new (true, s') ne (room, limit, found) =
      rw (full-length, room) (refl, limit, found)

  Removed-Answered :
      (o : Option (Ptr × List Ptr)) (r : Ptr × Store)
      → Removed s o r
      → Answered (max_size s) (take_out (contents s ps) o) (taken r.0, r.1)
  Removed-Answered none (v, s') (nothing, same) =
      rw (nothing, same) (refl, refl, (ps, qs, is, refl))
  Removed-Answered (some (w, vs)) (v, s') (e, limit, found) = (ap taken e, limit, found)

  perform-Answered :
      (c : Call) (fresh : Ptr)
      → s.heap.alive fresh ≡ false
      → (fresh == null) ≡ false
      → Returns (Answered (max_size s) (answer (max_size s) c (contents s ps))) (perform c fresh s)
  unfolding answer
  perform-Answered (push_front_call v) fresh dead ne =
      bind (push_front_lem s ps qs fresh v is dead)
        (λ r p. returns (Pushed-Answered fresh (v ∷ contents s ps) r ne p))
  perform-Answered (push_back_call v) fresh dead ne =
      bind (push_back_lem s ps qs fresh v is dead)
        (λ r p. returns (Pushed-Answered fresh (contents s ps ++ v ∷ []) r ne p))
  perform-Answered (insert_call index v) fresh dead ne =
      bind (insert_lem s ps qs fresh index v is dead) (λ r p. returns (
        Pushed-Answered fresh (take index (contents s ps) ++ v ∷ drop index (contents s ps)) r ne
          p))
  perform-Answered pop_front_call fresh dead ne =
      bind (pop_front_lem s ps qs is)
        (λ r p. returns (Removed-Answered (take_first (λ v. true) (contents s ps)) r p))
  perform-Answered pop_back_call fresh dead ne =
      bind (pop_back_lem s ps qs is)
        (λ r p. returns (Removed-Answered (take_last (contents s ps)) r p))
  perform-Answered (remove_call test) fresh dead ne =
      bind (remove_if_lem s ps qs test is)
        (λ r p. returns (Removed-Answered (take_first test (contents s ps)) r p))
  perform-Answered clear_call fresh dead ne =
      bind (clear_lem s ps qs is) (λ t p. returns (refl, p.0, ([], p.1.0, p.1.1, refl)))

-- the answers and the contents that the bounded sequence has, and its limit
abbrev pub Refines : (limit : ℕ) → List Answer × List Ptr → List Answer × Store → Type 0
Refines limit wanted (as', u) =
    (as' ≡ wanted.0)
    × (max_size u ≡ limit)
    × ((ps : List Ptr) × (qs : List Ptr) × IsList u ps qs × (contents u ps ≡ wanted.1))

Returns-run :
    {A : Type 0} {P Q : A → Type 0} {x : Run A}
    → Returns P x
    → ((a : A) → x ≡ ok a → P a → Q a)
    → Returns Q x
Returns-run (returns p) k = returns (k _ refl p)

-- For any history of calls of sky_list_push_front, _push_back, _insert, _pop_front, _pop_back,
-- _remove_if and _clear on a list in order, in which sky_mem_alloc gives each call an address that
-- is neither NULL nor in use: every call returns, and answers as the bounded sequence of the
-- list's contents does, which refuses an element where it is full; the limit is kept, and
-- afterwards the list is in order and holds the contents of that sequence.
pub perform_all-Refines :
    (cs : List (Call × Ptr)) (s : Store) (ps qs : List Ptr)
    → IsList s ps qs
    → Allocated cs s
    → Returns
        (Refines (max_size s) (answers (max_size s) (map (λ c. c.0) cs) (contents s ps)))
        (perform_all cs s)
unfolding perform_all answers
perform_all-Refines [] s ps qs is given = returns (refl, refl, (ps, qs, is, refl))
perform_all-Refines ((c, fresh) ∷ cs) s ps qs is (dead, ne, later) =
    bind
      (Returns-run
        {Q = λ r.
          (perform c fresh s ≡ ok r)
          × Answered (max_size s) (answer (max_size s) c (contents s ps)) r}
        (perform-Answered s ps qs is c fresh dead ne) (λ r run found. (run, found)))
      (λ r found.
        let (run, (same, limit, (ps', qs', is', held))) = found in
        bind (rw (limit, held) at (perform_all-Refines cs r.1 ps' qs' is' (later r run)))
          (λ rest done. returns (rw (same, done.0) refl, done.1, done.2)))
