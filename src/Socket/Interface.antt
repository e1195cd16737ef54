-- ===== src/Socket/Interface.antt =====
-- The functions of sky/src/sky_local_socket.c that open a socket for one call.
use skysdk.Base.{
  ℕ, zero, suc, ◌+◌, ◌-◌, ◌≤◌, ◌≡◌, ◌≢◌, ◌⊎◌, refl, inl, inr, Bool, true, false, Bool-cases, ltb,
  Option, none, some, Option-cases, List, [], ◌∷◌, take, if◌then◌else◌, Returns, returns, arith,
}
use skysdk.Socket.{
  Network, Datagram, Request, hardware, address_request, netmask_request, Syscall, opened, closed,
  asked, dump_requested, bound, sent, Reply, get_hwaddr, get_ip, get_netmask, send_raw_udp,
}

-- how many descriptors are open after the calls
abbrev pub balance : List Syscall → ℕ
balance [] = 0
balance (opened none ∷ cs) = balance cs
balance (opened (some fd) ∷ cs) = balance cs + 1
balance (closed none ∷ cs) = balance cs
balance (closed (some fd) ∷ cs) = balance cs - 1
balance (asked fd request ∷ cs) = balance cs
balance (dump_requested fd seq pid ∷ cs) = balance cs
balance (bound fd l ∷ cs) = balance cs
balance (sent fd p n l ∷ cs) = balance cs

-- what socket gave is taken for a failure: 0, and not -1
abbrev pub TakenForFailure : (sockfd : Option ℕ) → Type 0
TakenForFailure sockfd = sockfd ≡ some 0

-- A descriptor that is taken for a failure is left open, and no other one.
abbrev pub LeftOpen : (sockfd : Option ℕ) → (before after : List Syscall) → Type 0
LeftOpen sockfd cs cs' =
    (TakenForFailure sockfd × (balance cs' ≡ balance cs + 1))
    ⊎ ((sockfd ≢ some 0) × (balance cs' ≡ balance cs))

-- the address of an answer of AF_INET on a socket that was not taken for a failure, or `any`
abbrev pub Addressed : (any : ℕ) → (sockfd : Option ℕ) → Option Reply → (value : ℕ) → Type 0
Addressed any sockfd reply value =
    ((sockfd ≢ some 0) × ((r : Reply) × (reply ≡ some r) × (r.inet ≡ true) × (value ≡ r.address)))
    ⊎ ((TakenForFailure sockfd
          ⊎ (reply ≡ none)
          ⊎ ((r : Reply) × (reply ≡ some r) × (r.inet ≡ false)))
        × (value ≡ any))

not_zero : (fd : ℕ) → some (suc fd) ≢ some 0
not_zero fd e = cc

no_socket : ◌≢◌ {A = Option ℕ} none (some 0)
no_socket e = cc

answered :
    (any : ℕ) (sockfd : Option ℕ) (r : Reply)
    → sockfd ≢ some 0
    → Addressed any sockfd (some r) (if r.inet then r.address else any)
answered any sockfd r other = elim (Bool-cases r.inet) [
  | inl inet ↦ inl (other, (r, refl, inet, rw inet refl))
  | inr elsewhere ↦ inr (inr (inr (r, refl, elsewhere)), rw elsewhere refl)
]

module _ (any : ℕ) (ioctl : Request → Option Reply) (cs : List Syscall) where
  ip_lem :
      (sockfd : Option ℕ)
      → Addressed any sockfd (ioctl address_request) (get_ip any sockfd ioctl cs).0
        × LeftOpen sockfd cs (get_ip any sockfd ioctl cs).1
  unfolding get_ip
  ip_lem (some zero) = (inr (inl refl, refl), inl (refl, refl))
  ip_lem (some (suc fd)) = elim (Option-cases (ioctl address_request)) [
    | inl silent ↦ rw (get_ip, silent) (inr (inr (inl refl), refl), inr (not_zero fd, omega arith))
    | inr (r, told) ↦
        rw (get_ip, told)
          (answered any (some (suc fd)) r (not_zero fd), inr (not_zero fd, omega arith))
  ]
  ip_lem none = elim (Option-cases (ioctl address_request)) [
    | inl silent ↦ rw (get_ip, silent) (inr (inr (inl refl), refl), inr (no_socket, refl))
    | inr (r, told) ↦ rw (get_ip, told) (answered any none r no_socket, inr (no_socket, refl))
  ]

  netmask_lem :
      (sockfd : Option ℕ)
      → Addressed any sockfd (ioctl netmask_request) (get_netmask any sockfd ioctl cs).0
        × LeftOpen sockfd cs (get_netmask any sockfd ioctl cs).1
  unfolding get_netmask
  netmask_lem (some zero) = (inr (inl refl, refl), inl (refl, refl))
  netmask_lem (some (suc fd)) = elim (Option-cases (ioctl netmask_request)) [
    | inl silent ↦
        rw (get_netmask, silent) (inr (inr (inl refl), refl), inr (not_zero fd, omega arith))
    | inr (r, told) ↦
        rw (get_netmask, told)
          (answered any (some (suc fd)) r (not_zero fd), inr (not_zero fd, omega arith))
  ]
  netmask_lem none = elim (Option-cases (ioctl netmask_request)) [
    | inl silent ↦ rw (get_netmask, silent) (inr (inr (inl refl), refl), inr (no_socket, refl))
    | inr (r, told) ↦ rw (get_netmask, told) (answered any none r no_socket, inr (no_socket, refl))
  ]

-- what sky_if_get_hwaddr found, and the calls it made
abbrev pub Hardware :
    (sockfd : Option ℕ)
    → Option Reply
    → (before : List Syscall) → Option (List ℕ) × List Syscall
    → Type 0
Hardware sockfd reply cs (none, cs') =
    (TakenForFailure sockfd ⊎ (reply ≡ none)) × LeftOpen sockfd cs cs'
Hardware sockfd reply cs (some bytes, cs') =
    ((r : Reply) × (reply ≡ some r) × (bytes ≡ take 8 r.sa_data)) × LeftOpen sockfd cs cs'

hwaddr_lem :
    (size : ℕ) (sockfd : Option ℕ) (ioctl : Request → Option Reply) (cs : List Syscall)
    → 8 ≤ size
    → Returns (Hardware sockfd (ioctl hardware) cs) (get_hwaddr size sockfd ioctl cs)
unfolding get_hwaddr
hwaddr_lem size (some zero) ioctl cs room = returns (inl refl, inl (refl, refl))
hwaddr_lem size (some (suc fd)) ioctl cs room =
    let e : ltb size 8 ≡ false = ground (arith, room) in
    elim (Option-cases (ioctl hardware)) [
      | inl silent ↦ rw (get_hwaddr, silent) (returns (inr refl, inr (not_zero fd, omega arith)))
      | inr (r, told) ↦
          rw (get_hwaddr, told, e) (returns ((r, refl, refl), inr (not_zero fd, omega arith)))
    ]
hwaddr_lem size none ioctl cs room =
    let e : ltb size 8 ≡ false = ground (arith, room) in
    elim (Option-cases (ioctl hardware)) [
      | inl silent ↦ rw (get_hwaddr, silent) (returns (inr refl, inr (no_socket, refl)))
      | inr (r, told) ↦ rw (get_hwaddr, told, e) (returns ((r, refl, refl), inr (no_socket, refl)))
    ]

udp_balance :
    (net : Network) (d : Datagram) (sockfd : Option ℕ) (binds : Bool) (sends : Option ℕ)
    (cs : List Syscall)
    → balance (send_raw_udp net d sockfd binds sends cs).1 ≡ balance cs
unfolding send_raw_udp
udp_balance net d none binds sends cs = elim (Bool-cases (ltb 512 d.len)) [
  | inl long ↦ rw long refl
  | inr short ↦ rw short refl
]
udp_balance net d (some fd) true sends cs = elim (Bool-cases (ltb 512 d.len)) [
  | inl long ↦ rw long refl
  | inr short ↦ rw short (omega arith)
]
udp_balance net d (some fd) false sends cs = elim (Bool-cases (ltb 512 d.len)) [
  | inl long ↦ rw long refl
  | inr short ↦ rw short (omega arith)
]

-- Whatever socket gives and ioctl answers: sky_if_get_ip and sky_if_get_netmask give the address
-- that ioctl wrote for SIOCGIFADDR and for SIOCGIFNETMASK, or SKY_INADDR_ANY exactly if the socket
-- is 0, ioctl fails or the address is not one of AF_INET; sky_if_get_hwaddr into a buffer of 8
-- bytes or more gives the first 8 bytes that ioctl wrote for SIOCGIFHWADDR, or fails if the socket
-- is 0 or ioctl fails. Each leaves a descriptor open if it is 0, and otherwise as many as before.
-- sky_socket_send_raw_udp leaves as many descriptors open as before, whatever fails.
pub interface_lem :
    (net : Network) (d : Datagram) (any size : ℕ) (ioctl : Request → Option Reply)
    (sockfd : Option ℕ) (binds : Bool) (sends : Option ℕ) (cs : List Syscall)
    → 8 ≤ size
    → (Addressed any sockfd (ioctl address_request) (get_ip any sockfd ioctl cs).0
        × LeftOpen sockfd cs (get_ip any sockfd ioctl cs).1)
      × (Addressed any sockfd (ioctl netmask_request) (get_netmask any sockfd ioctl cs).0
          × LeftOpen sockfd cs (get_netmask any sockfd ioctl cs).1)
      × Returns (Hardware sockfd (ioctl hardware) cs) (get_hwaddr size sockfd ioctl cs)
      × (balance (send_raw_udp net d sockfd binds sends cs).1 ≡ balance cs)
interface_lem net d any size ioctl sockfd binds sends cs room = (
  ip_lem any ioctl cs sockfd,
  netmask_lem any ioctl cs sockfd,
  hwaddr_lem size sockfd ioctl cs room,
  udp_balance net d sockfd binds sends cs,
)
