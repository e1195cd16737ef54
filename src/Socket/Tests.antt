-- ===== src/Socket/Tests.antt =====
-- Runs of sky/src/sky_local_socket.c on the descriptor 5 and an answer of two messages.
use skysdk.Base.{
  ℕ, ◌*◌, ◌/◌, ◌%◌, ◌+◌, ◌≡◌, leb, leb→le, Bool, true, false, Option, some, List, [], ◌∷◌, Returns,
  zero, suc, refl, ap, ◌&&◌, length, arith,
}
use skysdk.Socket.{
  Network, Datagram, Request, hardware, address_request, netmask_request, Syscall, Reply,
  get_hwaddr, get_ip, get_netmask, send_raw_udp, nlmsg_done, nlmsg_other, Header, Received, message,
  Outcome, read_nl_sock,
}
use skysdk.Socket.Answer.{Fits, Good, read_nl_sock_lem}
use skysdk.Socket.Routes.{Route, Library, Message, get_gateway}
use skysdk.Socket.Gateway.{Documented, Answered, get_gateway_lem}
use skysdk.Socket.Interface.{balance, Addressed, LeftOpen, Hardware, interface_lem}

abbrev part : Header
part = record { nlmsg_type = nlmsg_other; multi = true; nlmsg_seq = 0; nlmsg_pid = 77 }

abbrev last : Header
last = record { nlmsg_type = nlmsg_done; multi = true; nlmsg_seq = 0; nlmsg_pid = 77 }

-- a head has 16 bytes
abbrev head_fits : Header → ℕ → Bool
head_fits h n = leb 16 n

abbrev answer : List Received
answer = message 20 part ∷ message 20 last ∷ message 0 last ∷ message 0 last ∷ message 0 last ∷ []

read_nl_sock_lem_example :
    (o : Outcome) × (read_nl_sock head_fits 64 1 77 answer ≡ some o) × Good 64 o
read_nl_sock_lem_example =
    read_nl_sock_lem head_fits (λ h n e. leb→le 16 n e) 64 1 77 (omega arith) answer
      (omega arith, (omega arith, (omega arith, (omega arith, (omega arith, tt))))) (omega arith)

abbrev reply : Reply
reply = record { inet = true; address = 0x0a00_0001; sa_data = 1 ∷ 2 ∷ 3 ∷ 4 ∷ 5 ∷ 6 ∷ 0 ∷ 0 ∷ [] }

abbrev network : Network
network = record { htons = λ n. n % 256 * 256 + n / 256; chksum = λ p size. size }

abbrev datagram : Datagram
datagram = record {
  if_index = 2;
  dst_mac = 1 ∷ 2 ∷ 3 ∷ 4 ∷ 5 ∷ 6 ∷ [];
  dst_ip = 0xffff_ffff;
  dst_port = 67;
  src_ip = 0;
  src_port = 68;
  buf = 7 ∷ 8 ∷ [];
  len = 2;
}

-- an address of AF_INET, and another netmask
abbrev interface : Request → Option Reply
interface hardware = some reply
interface address_request = some reply
interface netmask_request = some (record reply { address = 0xff00_0000 })

interface_lem_example :
    (Addressed 0 (some 5) (interface address_request) (get_ip 0 (some 5) interface []).0
      × LeftOpen (some 5) [] (get_ip 0 (some 5) interface []).1)
    × (Addressed 0 (some 5) (interface netmask_request) (get_netmask 0 (some 5) interface []).0
        × LeftOpen (some 5) [] (get_netmask 0 (some 5) interface []).1)
    × Returns (Hardware (some 5) (interface hardware) []) (get_hwaddr 16 (some 5) interface [])
    × (balance (send_raw_udp network datagram (some 5) true (some 128) []).1 ≡ balance [])
interface_lem_example =
    interface_lem network datagram 0 16 interface (some 5) true (some 128) [] (omega arith)

-- a rest of the answer that is never read, as long as there may be one
abbrev repeat {ℓ} : {A : Type ℓ} → ℕ → A → List A
repeat zero a = []
repeat (suc n) a = a ∷ repeat n a

length-repeat {ℓ} : {A : Type ℓ} (n : ℕ) (a : A) → length (repeat n a) ≡ n
length-repeat zero a = refl
length-repeat (suc n) a = ap suc (length-repeat n a)

repeat-Fits : (n at : ℕ) → Fits 8192 at (repeat n (message 0 last))
repeat-Fits zero at = tt
repeat-Fits (suc n) at = (omega arith, repeat-Fits n (at + 0))

-- a route to 10.0.0.0 by the gateway 99
abbrev route : Route
route = record { dst_addr = 10; gateway = 99; if_name = 101 ∷ [] }

abbrev routes : Library
routes = record {
  head_ok = head_fits;
  nlmsg_ok = λ m n. leb 16 m.nlmsg_len && leb 16 n;
  parse_routes = λ m. some route;
  inet_ntoa = λ a. b'1' ∷ b'0' ∷ b'.' ∷ b'0' ∷ b'.' ∷ b'0' ∷ b'.' ∷ b'0' ∷ [];
}

both : (a b : Bool) → (a && b) ≡ true → (a ≡ true) × (b ≡ true)
both true b h = (refl, h)
both false b h = absurd (cc)

routes-Documented : Documented routes
routes-Documented = (
  λ h n e. leb→le 16 n e,
  λ m n e.
      let (long, room) = both (leb 16 m.nlmsg_len) (leb 16 n) e in
      (leb→le 16 m.nlmsg_len long, leb→le 16 n room),
)

abbrev dump : Message
dump = record { head = part; nlmsg_len = 36; payload = [] }

abbrev received : List Received
received = message 36 part ∷ repeat 600 (message 0 last)

abbrev found : List Message
found = dump ∷ repeat 600 dump

get_gateway_lem_example :
    (gateway : ℕ) × (cs' : List Syscall) × (get_gateway routes 0
        (101 ∷ [])
        77
        (some 5)
        true
        received
        found
        []
      ≡ some (gateway, cs'))
    × (balance cs' ≡ balance [])
    × Answered routes 0 (101 ∷ []) 77 (some 5) true received found gateway
get_gateway_lem_example =
    get_gateway_lem routes 0 (101 ∷ []) routes-Documented 77 (some 5) true received found []
      (omega arith, repeat-Fits 600 36) (omega (arith, length-repeat 600 (message 0 last)))
      (omega (arith, length-repeat 600 dump))
