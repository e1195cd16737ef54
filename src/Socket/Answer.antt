-- ===== src/Socket/Answer.antt =====
-- read_nl_sock (sky/src/sky_local_socket.c): it ends, and stays within its buffer.
use skysdk.Base.{
  ℕ, ◌+◌, ◌-◌, ◌*◌, ◌%◌, ◌^◌, ◌<◌, ◌≤◌, ◌≡◌, ◌⊎◌, ◌==◌, refl, inl, inr, Bool, true, false,
  Bool-cases, not, ◌||◌, ltb, lt→ltb, none, some, List, [], ◌∷◌, length, arith,
}
use skysdk.Socket.{
  MessageType, nlmsg_error, nlmsg_done, nlmsg_other, is_error, Header, Received, recv_error,
  message, Window, Outcome, int_limit, read_loop, read_nl_sock,
}

-- every window lies in the buffer
abbrev pub InBuffer : ℕ → List Window → Type 0
InBuffer buf_size [] = Unit
InBuffer buf_size ((at, n) ∷ ws) = (at + n ≤ buf_size) × InBuffer buf_size ws

-- what is left of the buffer, on size_t
abbrev pub left_of : ℕ → ℕ → ℕ
left_of buf_size msg_len = (2 ^ 64 + buf_size - msg_len) % 2 ^ 64

-- recv writes no more than it is asked to
abbrev pub Fits : (buf_size msg_len : ℕ) → List Received → Type 0
Fits buf_size msg_len [] = Unit
Fits buf_size msg_len (recv_error ∷ rs) = Unit
Fits buf_size msg_len (message read_len h ∷ rs) =
    (read_len ≤ left_of buf_size msg_len) × Fits buf_size (msg_len + read_len) rs

abbrev pub Good : ℕ → Outcome → Type 0
Good buf_size (none, ws) = InBuffer buf_size ws
Good buf_size (some len, ws) = (len ≤ buf_size) × InBuffer buf_size ws

left_lem :
    (buf_size msg_len : ℕ)
    → buf_size < int_limit
    → msg_len ≤ buf_size
    → left_of buf_size msg_len ≡ buf_size - msg_len
left_lem buf_size msg_len small le = omega (arith, small, le)

type_cases : (t : MessageType) → is_error t ≡ false → (t ≡ nlmsg_done) ⊎ (t ≡ nlmsg_other)
type_cases nlmsg_error e = absurd (cc)
type_cases nlmsg_done e = inl refl
type_cases nlmsg_other e = inr refl

accepted : (a b : Bool) → (not a || b) ≡ false → (a ≡ true) × (b ≡ false)
accepted true b h = (refl, h)
accepted false b h = absurd (cc)

one_more :
    (buf_size at n : ℕ) (o : Outcome)
    → at + n ≤ buf_size
    → Good buf_size o
    → Good buf_size (o.0, (at, n) ∷ o.1)
one_more buf_size at n (none, ws) inside rest = (inside, rest)
one_more buf_size at n (some len, ws) inside (short, rest) = (short, (inside, rest))

module _ (nlmsg_ok : Header → ℕ → Bool)
    (heads : (h : Header) (n : ℕ) → nlmsg_ok h n ≡ true → 16 ≤ n) (buf_size seq_num pid : ℕ)
    (small : buf_size < int_limit) where
  abbrev Ends : ℕ → List Received → Type 0
  Ends msg_len rs =
      (o : Outcome) × (read_loop nlmsg_ok buf_size seq_num pid msg_len rs ≡ some o)
      × Good buf_size o

  read_loop_more :
      (rs : List Received) (msg_len n : ℕ) (h : Header) (o : Outcome)
      → ltb n int_limit ≡ true
      → ltb (msg_len + n) int_limit ≡ true
      → (not (nlmsg_ok h n) || is_error h.nlmsg_type) ≡ false
      → h.nlmsg_type ≡ nlmsg_other
      → h.multi ≡ true
      → (not (h.nlmsg_seq == seq_num) || not (h.nlmsg_pid == pid)) ≡ true
      → read_loop nlmsg_ok buf_size seq_num pid (msg_len + n) rs ≡ some o
      → read_loop nlmsg_ok buf_size seq_num pid msg_len (message n h ∷ rs)
        ≡ some (o.0, (msg_len, left_of buf_size msg_len) ∷ o.1)
  unfolding read_loop
  read_loop_more rs msg_len n h o whole sum good other multi more run =
      rw (whole, good, other, sum, multi, more, run) refl

  read_loop_lem :
      (rs : List Received) (msg_len : ℕ)
      → msg_len ≤ buf_size
      → Fits buf_size msg_len rs
      → buf_size - msg_len < 16 * length rs
      → Ends msg_len rs
  unfolding read_loop
  read_loop_lem [] msg_len le fits enough = absurd (omega (arith, enough))
  read_loop_lem (recv_error ∷ rs) msg_len le fits enough =
      (_, refl, (omega (arith, left_lem buf_size msg_len small le, le), tt))
  read_loop_lem (message n h ∷ rs) msg_len le (fit, fits) enough =
      let room = left_lem buf_size msg_len small le in
      let window : msg_len + left_of buf_size msg_len ≤ buf_size = omega (arith, room, le) in
      let next : msg_len + n ≤ buf_size = omega (arith, room, le, fit) in
      let whole : ltb n int_limit ≡ true = lt→ltb n int_limit (omega (arith, next, small)) in
      let sum : ltb (msg_len + n) int_limit ≡ true =
        lt→ltb (msg_len + n) int_limit (omega (arith, next, small)) in
      elim (Bool-cases (not (nlmsg_ok h n) || is_error h.nlmsg_type)) [
        | inl bad ↦
            ((none, (msg_len, left_of buf_size msg_len) ∷ []), rw (whole, bad) refl, (window, tt))
        | inr good ↦
            let (fine, no_error) = accepted (nlmsg_ok h n) (is_error h.nlmsg_type) good in
            elim (type_cases h.nlmsg_type no_error) [
              | inl done ↦ (
                (some msg_len, (msg_len, left_of buf_size msg_len) ∷ []),
                rw (whole, good, done) refl,
                (le, (window, tt)),
              )
              | inr other ↦ elim (Bool-cases h.multi) [
                | inr last ↦ (
                  (some (msg_len + n), (msg_len, left_of buf_size msg_len) ∷ []),
                  rw (whole, good, other, sum, last) refl,
                  (next, (window, tt)),
                )
                | inl multi ↦
                    elim (Bool-cases (not (h.nlmsg_seq == seq_num) || not (h.nlmsg_pid == pid))) [
                      | inr ours ↦ (
                        (some (msg_len + n), (msg_len, left_of buf_size msg_len) ∷ []),
                        rw (whole, good, other, sum, multi, ours) refl,
                        (next, (window, tt)),
                      )
                      | inl more ↦
                          let (o, run, in_place) =
                            read_loop_lem rs (msg_len + n) next fits
                              (omega (arith, enough, heads h n fine, next)) in
                          (
                            (o.0, (msg_len, left_of buf_size msg_len) ∷ o.1),
                            read_loop_more rs msg_len n h o whole sum good other multi more run,
                            one_more buf_size msg_len (left_of buf_size msg_len) o window in_place,
                          )
                    ]
              ]
            ]
      ]

  -- For a buffer of less than 2^31 bytes, where recv writes no more than it is asked to, NLMSG_OK
  -- accepts no message below the 16 bytes of a head, and the kernel sends a message for each 16
  -- bytes of the buffer and one more: read_nl_sock returns, its lengths stay within int, every
  -- call of recv may write within the buffer only, and the result is -1 or a length of at most the
  -- buffer's.
  pub read_nl_sock_lem :
      (rs : List Received)
      → Fits buf_size 0 rs
      → buf_size < 16 * length rs
      → (o : Outcome) × (read_nl_sock nlmsg_ok buf_size seq_num pid rs ≡ some o) × Good buf_size o
  unfolding read_nl_sock
  read_nl_sock_lem rs fits enough = read_loop_lem rs 0 (omega arith) fits (omega (arith, enough))
