-- ===== src/Socket.antt =====
-- sky/src/sky_local_socket.c: raw packets, the addresses of an interface, and the read of an answer of
-- the kernel. What a call of the system returned is an argument; the calls made are logged, the latest
-- in front.
pub mod Answer
pub mod Interface
pub mod Routes
pub mod DefaultRoute
pub mod Gateway
mod Tests
use skysdk.Base.{
  ℕ, zero, suc, ◌+◌, ◌-◌, ◌%◌, ◌^◌, ◌==◌, ltb, not, ◌||◌, Bool, true, false, Option, none, some,
  List, [], ◌∷◌, length, take, if◌then◌else◌, Run, ok, fault,
}

-- struct ip_udp_packet, with the fields that the code sets
pub record Packet : Type 0 where
  pub protocol : ℕ
  pub saddr : ℕ
  pub daddr : ℕ
  pub source : ℕ
  pub dest : ℕ
  pub udp_len : ℕ
  pub udp_check : ℕ
  pub tot_len : ℕ
  pub ihl : ℕ
  pub version : ℕ
  pub frag_off : ℕ
  pub ttl : ℕ
  pub ip_check : ℕ
  pub bytes : List ℕ

-- the fields of struct sockaddr_ll that depend on the call
pub record LinkAddress : Type 0 where
  pub sll_ifindex : ℕ
  pub sll_addr : List ℕ

-- what ioctl is asked for: SIOCGIFHWADDR, SIOCGIFADDR or SIOCGIFNETMASK
pub data Request : Type 0 where
  hardware : Request
  address_request : Request
  netmask_request : Request

-- the calls on a descriptor; `none` is -1
pub data Syscall : Type 0 where
  opened : (fd : Option ℕ) → Syscall
  closed : (fd : Option ℕ) → Syscall
  asked : (fd : Option ℕ) → (request : Request) → Syscall
  dump_requested : (fd : Option ℕ) → (nlmsg_seq nlmsg_pid : ℕ) → Syscall
  bound : (fd : Option ℕ) → (link : LinkAddress) → Syscall
  sent : (fd : Option ℕ) → (packet : Packet) → (size : ℕ) → (link : LinkAddress) → Syscall

-- what ioctl writes for an interface
pub record Reply : Type 0 where
  pub inet : Bool
  pub address : ℕ
  pub sa_data : List ℕ

-- sky_if_get_hwaddr, into a buffer of `size` bytes: `sizeof( hw_addr )` is that of a pointer,
-- 8 on a system of 64 bits. What ioctl answers to a request is the argument `ioctl`, also below.
unfoldable pub get_hwaddr :
    (size : ℕ)
    → (sockfd : Option ℕ) → (ioctl : Request → Option Reply) → List Syscall
    → Run (Option (List ℕ) × List Syscall)
get_hwaddr size (some zero) ioctl cs = ok (none, opened (some 0) ∷ cs)
get_hwaddr size sockfd ioctl cs =
    let cs' = closed sockfd ∷ asked sockfd hardware ∷ opened sockfd ∷ cs in
    elim (ioctl hardware) [
      | none ↦ ok (none, cs')
      | some r ↦ if ltb size 8 then fault else ok (some (take 8 r.sa_data), cs')
    ]

-- sky_if_get_ip; SKY_INADDR_ANY, which the repository does not define, is the argument `any`
unfoldable pub get_ip :
    (any : ℕ)
    → (sockfd : Option ℕ) → (ioctl : Request → Option Reply) → List Syscall
    → ℕ × List Syscall
get_ip any (some zero) ioctl cs = (any, opened (some 0) ∷ cs)
get_ip any sockfd ioctl cs =
    let cs' = closed sockfd ∷ asked sockfd address_request ∷ opened sockfd ∷ cs in
    elim (ioctl address_request) [
      | none ↦ (any, cs')
      | some r ↦ (if r.inet then r.address else any, cs')
    ]

-- sky_if_get_netmask
unfoldable pub get_netmask :
    (any : ℕ)
    → (sockfd : Option ℕ) → (ioctl : Request → Option Reply) → List Syscall
    → ℕ × List Syscall
get_netmask any (some zero) ioctl cs = (any, opened (some 0) ∷ cs)
get_netmask any sockfd ioctl cs =
    let cs' = closed sockfd ∷ asked sockfd netmask_request ∷ opened sockfd ∷ cs in
    elim (ioctl netmask_request) [
      | none ↦ (any, cs')
      | some r ↦ (if r.inet then r.address else any, cs')
    ]

-- the arguments of sky_socket_send_raw_udp
pub record Datagram : Type 0 where
  pub if_index : ℕ
  pub dst_mac : List ℕ
  pub dst_ip : ℕ
  pub dst_port : ℕ
  pub src_ip : ℕ
  pub src_port : ℕ
  pub buf : List ℕ
  pub len : ℕ

abbrev pub link_of : Datagram → LinkAddress
link_of d = record { sll_ifindex = d.if_index; sll_addr = take 6 d.dst_mac }

-- htons, and sky_algorithm_inet_chksum on the bytes of a packet up to a size; both are not in the
-- repository
pub record Network : Type 0 where
  pub htons : ℕ → ℕ
  pub chksum : Packet → (size : ℕ) → ℕ

-- the packet after the assignments; its headers have 20 and 8 bytes, its data 512
unfoldable pub packet_of : Network → Datagram → Packet
packet_of net d =
    let udp_len = net.htons ((8 + d.len) % 0x1_0000) in
    let p : Packet = record {
      protocol = 17;
      saddr = d.src_ip;
      daddr = d.dst_ip;
      source = d.src_port % 0x1_0000;
      dest = d.dst_port % 0x1_0000;
      udp_len = udp_len;
      udp_check = 0;
      tot_len = udp_len;
      ihl = 0;
      version = 0;
      frag_off = 0;
      ttl = 0;
      ip_check = 0;
      bytes = take d.len d.buf;
    } in
    let q = record p {
      udp_check = net.chksum p (20 + 8 + d.len);
      tot_len = net.htons (540 - 512 + d.len);
      ihl = 5;
      version = 4;
      frag_off = net.htons 0x4000;
      ttl = 64;
    } in
    record q { ip_check = net.chksum q 20 }

-- sky_socket_send_raw_udp: whether bind succeeds, and what sendto gives
unfoldable pub send_raw_udp :
    Network
    → Datagram
    → (sockfd : Option ℕ) → (binds : Bool) → (sends : Option ℕ) → List Syscall
    → Option ℕ × List Syscall
send_raw_udp net d sockfd binds sends cs = if ltb 512 d.len then (none, cs) else elim sockfd [
  | none ↦ (none, opened none ∷ cs)
  | some fd ↦
      let cs' = bound (some fd) (link_of d) ∷ opened (some fd) ∷ cs in
      if binds
      then (
        sends,
        closed (some fd) ∷ sent (some fd) (packet_of net d) (540 - 512 + d.len) (link_of d) ∷ cs',
      )
      else (none, closed (some fd) ∷ cs')
]

-- what nlmsg_type says of a message
pub data MessageType : Type 0 where
  nlmsg_error : MessageType
  nlmsg_done : MessageType
  nlmsg_other : MessageType

-- the head of a message; `multi` is the flag NLM_F_MULTI
pub record Header : Type 0 where
  pub nlmsg_type : MessageType
  pub multi : Bool
  pub nlmsg_seq : ℕ
  pub nlmsg_pid : ℕ

-- what recv comes to: an error, or a number of bytes that start with a head
pub data Received : Type 0 where
  recv_error : Received
  message : (read_len : ℕ) → (head : Header) → Received

abbrev pub is_error : MessageType → Bool
is_error nlmsg_error = true
is_error nlmsg_done = false
is_error nlmsg_other = false

-- where a call of recv may write: an offset in the buffer and a size
abbrev pub Window : Type 0
Window = ℕ × ℕ

-- the result of read_nl_sock, `none` for -1, with the windows of its calls of recv in turn
abbrev pub Outcome : Type 0
Outcome = Option ℕ × List Window

abbrev pub behind : Window → Option Outcome → Option Outcome
behind w none = none
behind w (some (r, ws)) = some (r, w ∷ ws)

-- `read_len` and `msg_len` are int
abbrev pub int_limit : ℕ
int_limit = 0x8000_0000

-- The loop of read_nl_sock, over what recv comes to in turn; `none` while it still waits, and where a
-- number is none of int. The macro NLMSG_OK is the parameter; the size is one of size_t.
unfoldable pub read_loop :
    (nlmsg_ok : Header → ℕ → Bool)
    → (buf_size seq_num pid msg_len : ℕ) → List Received
    → Option Outcome
read_loop nlmsg_ok buf_size seq_num pid msg_len [] = none
read_loop nlmsg_ok buf_size seq_num pid msg_len (recv_error ∷ rs) =
    some (none, (msg_len, (2 ^ 64 + buf_size - msg_len) % 2 ^ 64) ∷ [])
read_loop nlmsg_ok buf_size seq_num pid msg_len (message read_len h ∷ rs) =
    let window : Window = (msg_len, (2 ^ 64 + buf_size - msg_len) % 2 ^ 64) in
    let rest = behind window (read_loop nlmsg_ok buf_size seq_num pid (msg_len + read_len) rs) in
    let read : Option Outcome =
      if not (nlmsg_ok h read_len) || is_error h.nlmsg_type
      then some (none, window ∷ [])
      else elim h.nlmsg_type [
        | nlmsg_done ↦ some (some msg_len, window ∷ [])
        | _ ↦
            if ltb (msg_len + read_len) int_limit
            then if h.multi
              then if not (h.nlmsg_seq == seq_num) || not (h.nlmsg_pid == pid)
                then rest
                else some (some (msg_len + read_len), window ∷ [])
              else some (some (msg_len + read_len), window ∷ [])
            else none
      ] in
    if ltb read_len int_limit then read else none

-- read_nl_sock
unfoldable pub read_nl_sock :
    (nlmsg_ok : Header → ℕ → Bool) → (buf_size seq_num pid : ℕ) → List Received → Option Outcome
read_nl_sock nlmsg_ok buf_size seq_num pid rs = read_loop nlmsg_ok buf_size seq_num pid 0 rs
