-- ===== src/Socket/Gateway.antt =====
-- sky_if_get_gateway (sky/src/sky_local_socket.c): it ends, closes its socket, and which route it takes.
use skysdk.Base.{
  ℕ, ◌-◌, ◌*◌, ◌<◌, ◌≤◌, ◌≡◌, ◌⊎◌, refl, inl, inr, Bool, true, false, Bool-cases, Option, none,
  some, List, [], ◌∷◌, Str, length, if◌then◌else◌, arith,
}
use skysdk.Socket.{
  Header, Received, Outcome, Window, Syscall, opened, closed, dump_requested, read_nl_sock,
}
use skysdk.Socket.Answer.{Fits, Good, read_nl_sock_lem}
use skysdk.Socket.Interface.{balance}
use skysdk.Socket.DefaultRoute.{
  FirstDefault, FirstDefault-here, FirstDefault-later, default_route-IsDefault,
}
use skysdk.Socket.Routes.{Library, Message, aligned, route_loop, get_gateway}

-- what the macros say: a message that is there has a head of 16 bytes
abbrev pub Documented : Library → Type 0
Documented lib =
    ((h : Header) (n : ℕ) → lib.head_ok h n ≡ true → 16 ≤ n)
    × ((m : Message) (n : ℕ) → lib.nlmsg_ok m n ≡ true → (16 ≤ m.nlmsg_len) × (16 ≤ n))

module _ (lib : Library) where
  -- the messages that are whole, within a length
  abbrev pub readable : ℕ → List Message → List Message
  readable len [] = []
  readable len (m ∷ ms) =
      if lib.nlmsg_ok m len then m ∷ readable (len - aligned m.nlmsg_len) ms else []

  module _ (any : ℕ) (if_name : Str) where
    module _ (law : Documented lib) where
      route_loop_lem :
          (len : ℕ) (ms : List Message)
          → len < 16 * length ms
          → (g : ℕ) × (route_loop lib any if_name len ms ≡ some g)
            × FirstDefault lib if_name any (readable len ms) g
      unfolding route_loop
      route_loop_lem len [] enough = absurd (omega (arith, enough))
      route_loop_lem len (m ∷ ms) enough = elim (Bool-cases (lib.nlmsg_ok m len)) [
        | inr over ↦ (any, rw over refl, rw over (inl (tt, refl)))
        | inl there ↦ elim (default_route-IsDefault lib if_name any m) [
          | inl (g, found, hit) ↦ (
            g,
            rw (there, found) refl,
            rw there (
                FirstDefault-here lib if_name any m (readable (len - aligned m.nlmsg_len) ms) g
                  hit),
          )
          | inr (missed, other) ↦
              let sizes = law.1 m len there in
              let (g, run, first) =
                route_loop_lem (len - aligned m.nlmsg_len) ms
                  (omega (arith, sizes.0, sizes.1, enough)) in
              (
                g,
                rw (there, missed) run,
                rw there (
                    FirstDefault-later lib if_name any m (readable (len - aligned m.nlmsg_len) ms) g
                      other first),
              )
        ]
      ]

    -- Nothing is found where there is no socket, send fails, or the answer cannot be read; otherwise the
    -- first route that is taken for the default one.
    abbrev pub Answered :
        (pid : ℕ) → (sock : Option ℕ) → (sends : Bool) → List Received → List Message → ℕ → Type 0
    Answered pid sock sends rs msgs gateway =
        (((sock ≡ none)
            ⊎ (sends ≡ false)
            ⊎ ((ws : List Window) × (read_nl_sock lib.head_ok 8192 1 pid rs ≡ some (none, ws))))
          × (gateway ≡ any))
        ⊎ ((len : ℕ) × (ws : List Window) × (read_nl_sock lib.head_ok 8192 1 pid rs
              ≡ some (some len, ws))
            × FirstDefault lib if_name any (readable len msgs) gateway)

    abbrev Ends :
        (pid : ℕ)
        → (sock : Option ℕ) → (sends : Bool) → List Received
        → List Message
        → List Syscall
        → Type 0
    Ends pid sock sends rs msgs cs =
        (gateway : ℕ) × (cs' : List Syscall) × (get_gateway lib any if_name pid sock sends rs msgs
            cs
          ≡ some (gateway, cs'))
        × (balance cs' ≡ balance cs)
        × Answered pid sock sends rs msgs gateway

    answer_lem :
        (law : Documented lib) (pid sock : ℕ) (rs : List Received) (msgs : List Message)
        (cs : List Syscall) (o : Outcome)
        → 8192 < 16 * length msgs
        → read_nl_sock lib.head_ok 8192 1 pid rs ≡ some o
        → Good 8192 o
        → Ends pid (some sock) true rs msgs cs
    unfolding get_gateway
    answer_lem law pid sock rs msgs cs (none, ws) enough run good = (
      any,
      closed (some sock) ∷ dump_requested (some sock) 0 pid ∷ opened (some sock) ∷ cs,
      rw (run, get_gateway) refl,
      omega arith,
      inl (inr (inr (ws, run)), refl),
    )
    answer_lem law pid sock rs msgs cs (some len, ws) enough run (short, inside) =
        let (g, loop, first) = route_loop_lem law len msgs (omega (arith, short, enough)) in
        (
          g,
          closed (some sock) ∷ dump_requested (some sock) 0 pid ∷ opened (some sock) ∷ cs,
          rw (run, get_gateway, loop) refl,
          omega arith,
          inr (len, ws, run, first),
        )

    -- Where recv writes no more than it is asked to, a message that the macros accept has a head
    -- of 16 bytes, and the kernel has a message, and the buffer one, for each 16 of its 8192 bytes
    -- and one more: sky_if_get_gateway returns, and leaves as many descriptors open as before. It
    -- gives SKY_INADDR_ANY if there is no socket, send fails, or the answer cannot be read;
    -- otherwise the gateway of the first whole message that parse_routes reads as a route of the
    -- given interface with '0.0.0.0' somewhere in the text of its destination, or SKY_INADDR_ANY
    -- if there is none.
    pub get_gateway_lem :
        (law : Documented lib) (pid : ℕ) (sock : Option ℕ) (sends : Bool) (rs : List Received)
        (msgs : List Message) (cs : List Syscall)
        → Fits 8192 0 rs
        → 8192 < 16 * length rs
        → 8192 < 16 * length msgs
        → (gateway : ℕ) × (cs' : List Syscall) × (get_gateway lib any if_name pid sock sends rs msgs
              cs
            ≡ some (gateway, cs'))
          × (balance cs' ≡ balance cs)
          × Answered pid sock sends rs msgs gateway
    unfolding get_gateway
    get_gateway_lem law pid none sends rs msgs cs fits enough many =
        (any, opened none ∷ cs, refl, refl, inl (inl refl, refl))
    get_gateway_lem law pid (some sock) false rs msgs cs fits enough many = (
      any,
      closed (some sock) ∷ dump_requested (some sock) 0 pid ∷ opened (some sock) ∷ cs,
      refl,
      omega arith,
      inl (inr (inl refl), refl),
    )
    get_gateway_lem law pid (some sock) true rs msgs cs fits enough many =
        let (o, run, good) =
          read_nl_sock_lem lib.head_ok law.0 8192 1 pid (omega arith) rs fits enough in
        answer_lem law pid sock rs msgs cs o many run good
