-- ===== src/Socket/Routes.antt =====
-- sky_if_get_gateway (sky/src/sky_local_socket.c). parse_routes and sky_inet_ntoa, which are not in the
-- repository, and the macros on messages are parameters; what the system returned is an argument.
use skysdk.Base.{
  ℕ, ◌+◌, ◌-◌, ◌*◌, ◌/◌, Bool, true, false, Option, none, some, List, [], ◌∷◌, Str, str_eq,
  if◌then◌else◌,
}
use skysdk.Str.{str_str}
use skysdk.Socket.{Syscall, opened, closed, dump_requested, Header, Received, read_nl_sock}

-- struct route_info, with the fields that are read
pub record Route : Type 0 where
  pub dst_addr : ℕ
  pub gateway : ℕ
  pub if_name : Str

-- a message in the buffer, with its length and what stands behind its head
pub record Message : Type 0 where
  pub head : Header
  pub nlmsg_len : ℕ
  pub payload : List ℕ

-- The macros NLMSG_OK, on the head that recv gave and on a message of the buffer, parse_routes with
-- `none` for a negative result, and sky_inet_ntoa.
pub record Library : Type 0 where
  pub head_ok : Header → ℕ → Bool
  pub nlmsg_ok : Message → ℕ → Bool
  pub parse_routes : Message → Option Route
  pub inet_ntoa : ℕ → Str

-- "0.0.0.0"
abbrev pub zero_address : Str
zero_address = b'0' ∷ b'.' ∷ b'0' ∷ b'.' ∷ b'0' ∷ b'.' ∷ b'0' ∷ []

abbrev pub is_some {ℓ} : {A : Type ℓ} → Option A → Bool
is_some none = false
is_some (some a) = true

-- NLMSG_ALIGN
abbrev pub aligned : ℕ → ℕ
aligned n = (n + 3) / 4 * 4

module _ (lib : Library) (any : ℕ) (if_name : Str) where
  -- the two tests of the loop: `*gateway_addr` where both hold
  unfoldable pub default_route : Message → Option ℕ
  default_route msg = elim (lib.parse_routes msg) [
    | none ↦ none
    | some route ↦
        if str_eq route.if_name if_name
        then if is_some (str_str (lib.inet_ntoa route.dst_addr) zero_address)
          then some route.gateway
          else none
        else none
  ]

  -- the loop of sky_if_get_gateway, over the messages that stand in the buffer in turn; `none` where
  -- it goes on behind them
  unfoldable pub route_loop : (len : ℕ) → List Message → Option ℕ
  unfolding default_route
  route_loop len [] = none
  route_loop len (msg ∷ msgs) =
      let rest = route_loop (len - aligned msg.nlmsg_len) msgs in
      if lib.nlmsg_ok msg len
      then (elim (default_route msg) [ none ↦ rest | some gateway ↦ some gateway ])
      else some any

  -- sky_if_get_gateway: what socket, send and the calls of recv came to, and the messages that then
  -- stand in the buffer. The request has the number 0; the answer is read with the number 1.
  unfoldable pub get_gateway :
      (pid : ℕ)
      → (sock : Option ℕ) → (sends : Bool) → List Received
      → List Message
      → List Syscall
      → Option (ℕ × List Syscall)
  unfolding route_loop
  get_gateway pid none sends rs msgs cs = some (any, opened none ∷ cs)
  get_gateway pid (some sock) sends rs msgs cs =
      let cs' = dump_requested (some sock) 0 pid ∷ opened (some sock) ∷ cs in
      if sends
      then (elim (read_nl_sock lib.head_ok 8192 1 pid rs) [
        | none ↦ none
        | some (read, windows) ↦ elim read [
          | none ↦ some (any, closed (some sock) ∷ cs')
          | some len ↦ elim (route_loop len msgs) [
            | none ↦ none
            | some gateway ↦ some (gateway, closed (some sock) ∷ cs')
          ]
        ]
      ])
      else some (any, closed (some sock) ∷ cs')
