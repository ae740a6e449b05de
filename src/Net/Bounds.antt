-- ===== src/Net/Bounds.antt =====
-- src/kernel/net.c: which bytes of memory the handling of a packet reads.
use zoho_os.Prelude.{
  ℕ, zero, suc, ◌+◌, ◌-◌, ◌*◌, ◌/◌, ◌%◌, ◌^◌, ◌≤◌, ◌<◌, ◌≡◌, ◌≢◌, ◌⊎◌, inl, inr, refl, sym, ap, ◌∙◌,
  Bool, true, false, not, ◌||◌, ◌&&◌, List, [], ◌∷◌, Option, none, some, arith, ◌==◌, ltb,
  if◌then◌else◌,
}
use zoho_os.Net.{Net, Wait, Data, bytes_at, same_bytes, word16, word32}
use zoho_os.Net.Packet.{
  swap16, eth_type, eth_src, arp_htype, arp_ptype, arp_oper, arp_src_mac, arp_src_ip, arp_dst_ip,
  ip_header_len, ip_len, ip_proto, ip_src, ip_dst, src_port, dst_port, tcp_header_len, load16,
  swap32, tcp_seq, tcp_ack,
}
use zoho_os.Net.Arp.{find_handler}
use zoho_os.Net.Send.{net_send_ipv4, net_send_tcp, icmp_packet}
use zoho_os.Net.Tcp.{
  find_conn, belongs, conn_at, handle_state, has_flag, rst, ack_flag, syn, tcp_handle_packet,
}
use zoho_os.Net.Receive.{
  kernel_handlers, learn_and_answer, deliver_tcp, dispatch_ipv4, net_handle_arp, net_handle_icmp,
  net_handle_tcp, net_handle_ipv4, net_handle_packet,
}

-- Two memories have the same `len` bytes from `p` on.
abbrev pub Agree : Data → Data → ℕ → ℕ → Type 0
Agree m m' p len = (i : ℕ) → i < len → m (p + i) ≡ m' (p + i)

Agree-at : (m m' : Data) (p len a : ℕ) → Agree m m' p len → p ≤ a → a < p + len → m a ≡ m' a
Agree-at m m' p len a h l r =
    let e : p + (a - p) ≡ a = omega arith in ap m (sym e) ∙ h (a - p) (omega arith) ∙ ap m' e

-- A part of the bytes.
Agree-part :
    (m m' : Data) (p len a k : ℕ) → Agree m m' p len → p ≤ a → a + k ≤ p + len → Agree m m' a k
Agree-part m m' p len a k h l r i s = Agree-at m m' p len (a + i) h (omega arith) (omega arith)

pub bytes-Agree : (m m' : Data) (a k : ℕ) → Agree m m' a k → bytes_at m a k ≡ bytes_at m' a k
bytes-Agree m m' a zero h = refl
bytes-Agree m m' a (suc k) h =
    let here : m a ≡ m' a = Agree-at m m' a (suc k) a h (omega arith) (omega arith) in
    let rest =
      bytes-Agree m m' (a + 1) k
        (Agree-part m m' a (suc k) (a + 1) k h (omega arith) (omega arith)) in
    λ i. here i ∷ rest i

bytes_inside :
    (m m' : Data) (p len a k : ℕ)
    → Agree m m' p len
    → p ≤ a
    → a + k ≤ p + len
    → bytes_at m a k ≡ bytes_at m' a k
bytes_inside m m' p len a k h l r = bytes-Agree m m' a k (Agree-part m m' p len a k h l r)

load_inside :
    (m m' : Data) (p len a : ℕ)
    → Agree m m' p len
    → p ≤ a
    → a + 2 ≤ p + len
    → load16 m a ≡ load16 m' a
load_inside m m' p len a h l r = λ i.
    Agree-at m m' p len a h (omega arith) (omega arith) i
    + Agree-at m m' p len (a + 1) h (omega arith) (omega arith) i * 2 ^ 8

-- A test that decides whether anything is read.
guarded :
    (b : Bool) (n x y : Net) → (b ≡ false → x ≡ y) → (if b then n else x) ≡ (if b then n else y)
guarded true n x y h = refl
guarded false n x y h = h refl

arp_reads :
    (m m' : Data) (p len : ℕ) (n : Net)
    → Agree m m' p len
    → net_handle_arp m p len n ≡ net_handle_arp m' p len n
unfolding net_handle_arp
arp_reads m m' p len n h =
    guarded (ltb len 28) n
      (learn_and_answer (arp_htype m p) (arp_ptype m p) (arp_oper m p) (arp_src_mac m p)
        (arp_src_ip m p) (arp_dst_ip m p) n)
      (learn_and_answer (arp_htype m' p) (arp_ptype m' p) (arp_oper m' p) (arp_src_mac m' p)
        (arp_src_ip m' p) (arp_dst_ip m' p) n)
      (λ s.
        let big : 28 ≤ len = ground (arith, s) in
        let a = load_inside m m' p len p h (omega arith) (omega arith) in
        let b = load_inside m m' p len (p + 2) h (omega arith) (omega arith) in
        let c = load_inside m m' p len (p + 6) h (omega arith) (omega arith) in
        let d = bytes_inside m m' p len (p + 8) 6 h (omega arith) (omega arith) in
        let e = bytes_inside m m' p len (p + 14) 4 h (omega arith) (omega arith) in
        let f = bytes_inside m m' p len (p + 24) 4 h (omega arith) (omega arith) in
        λ i. learn_and_answer (a i) (b i) (c i) (d i) (e i) (f i) n)

-- The header at `ip` agrees, and the payload.
icmp_reads :
    (src_mac : List ℕ) (m m' : Data) (ip p len : ℕ) (n : Net)
    → Agree m m' ip 20
    → Agree m m' p len
    → net_handle_icmp src_mac m ip p len n ≡ net_handle_icmp src_mac m' ip p len n
unfolding net_handle_icmp
icmp_reads src_mac m m' ip p len n h g =
    guarded (ltb len 8) n
      (if m p == 8
        then net_send_ipv4 (ip_src m ip) src_mac 1
            (icmp_packet 0 (m (p + 1)) (bytes_at m (p + 4) (len - 4))) n
        else n)
      (if m' p == 8
        then net_send_ipv4 (ip_src m' ip) src_mac 1
            (icmp_packet 0 (m' (p + 1)) (bytes_at m' (p + 4) (len - 4))) n
        else n)
      (λ s.
        let big : 8 ≤ len = ground (arith, s) in
        let a = Agree-at m m' p len p g (omega arith) (omega arith) in
        let b = Agree-at m m' p len (p + 1) g (omega arith) (omega arith) in
        let c = bytes_inside m m' p len (p + 4) (len - 4) g (omega arith) (omega arith) in
        let d = bytes_inside m m' ip 20 (ip + 12) 4 h (omega arith) (omega arith) in
        λ i. if a i == 8 then net_send_ipv4 (d i) src_mac 1 (icmp_packet 0 (b i) (c i)) n else n)

-- A handler that is found is called alike.
called :
    (o : Option ℕ) (n : Net) (x y : ℕ → Net)
    → ((h : ℕ) → x h ≡ y h)
    → (elim o as (λ u. Net) [ none ↦ n | some h ↦ x h ])
      ≡ (elim o as (λ u. Net) [ none ↦ n | some h ↦ y h ])
called none n x y e = refl
called (some h) n x y e = e h

-- `tcp_handle_packet` reads the header alone.
segment_reads :
    (w : Wait) (src_ip : List ℕ) (from to : ℕ) (m m' : Data) (p len : ℕ) (n : Net)
    → 20 ≤ len
    → Agree m m' p len
    → tcp_handle_packet w src_ip from to m p n ≡ tcp_handle_packet w src_ip from to m' p n
unfolding tcp_handle_packet
segment_reads w src_ip from to m m' p len n big g =
    let a = load_inside m m' p len (p + 4) g (omega arith) (omega arith) in
    let b = load_inside m m' p len (p + 4 + 2) g (omega arith) (omega arith) in
    let c = load_inside m m' p len (p + 8) g (omega arith) (omega arith) in
    let d = load_inside m m' p len (p + 8 + 2) g (omega arith) (omega arith) in
    let f = Agree-at m m' p len (p + 13) g (omega arith) (omega arith) in
    let seq : swap32 (tcp_seq m p) ≡ swap32 (tcp_seq m' p) = ap swap32 (λ i. a i + b i * 2 ^ 16) in
    let ack : swap32 (tcp_ack m p) ≡ swap32 (tcp_ack m' p) = ap swap32 (λ i. c i + d i * 2 ^ 16) in
    λ i. elim (find_conn (belongs src_ip from to) n.connections) as (λ o. Net) [
      | none ↦
          if has_flag (f i) syn
          then net_send_tcp w src_ip to from 0 (word32 (seq i + 1)) (rst + ack_flag) [] n
          else n
      | some j ↦ handle_state ((conn_at j n).state) w j src_ip from (f i) (seq i) (ack i) n
    ]

deliver_tcp_reads :
    (w : Wait) (header_len from to : ℕ) (src_ip : List ℕ) (m m' : Data) (p len : ℕ) (n : Net)
    → 20 ≤ len
    → Agree m m' p len
    → deliver_tcp (kernel_handlers w) header_len from to src_ip m p len n
      ≡ deliver_tcp (kernel_handlers w) header_len from to src_ip m' p len n
unfolding deliver_tcp kernel_handlers
deliver_tcp_reads w header_len from to src_ip m m' p len n big g =
    guarded (ltb header_len 20 || ltb len header_len) n
      (elim (find_handler n.tcp_bindings to) as (λ u. Net) [
        | none ↦ n
        | some h ↦ tcp_handle_packet w src_ip from to m p n
      ])
      (elim (find_handler n.tcp_bindings to) as (λ u. Net) [
        | none ↦ n
        | some h ↦ tcp_handle_packet w src_ip from to m' p n
      ])
      (λ s.
        called (find_handler n.tcp_bindings to) n (λ h. tcp_handle_packet w src_ip from to m p n)
          (λ h. tcp_handle_packet w src_ip from to m' p n)
          (λ h. segment_reads w src_ip from to m m' p len n big g))

tcp_reads :
    (w : Wait) (m m' : Data) (ip p len : ℕ) (n : Net)
    → Agree m m' ip 20
    → Agree m m' p len
    → net_handle_tcp (kernel_handlers w) m ip p len n
      ≡ net_handle_tcp (kernel_handlers w) m' ip p len n
unfolding net_handle_tcp
tcp_reads w m m' ip p len n h g =
    guarded (ltb len 20) n
      (deliver_tcp (kernel_handlers w) (tcp_header_len m p) (swap16 (src_port m p))
        (swap16 (dst_port m p)) (ip_src m ip) m p len n)
      (deliver_tcp (kernel_handlers w) (tcp_header_len m' p) (swap16 (src_port m' p))
        (swap16 (dst_port m' p)) (ip_src m' ip) m' p len n)
      (λ s.
        let big : 20 ≤ len = ground (arith, s) in
        let a = Agree-at m m' p len (p + 12) g (omega arith) (omega arith) in
        let b = load_inside m m' p len p g (omega arith) (omega arith) in
        let c = load_inside m m' p len (p + 2) g (omega arith) (omega arith) in
        let d = bytes_inside m m' ip 20 (ip + 12) 4 h (omega arith) (omega arith) in
        (λ i.
          deliver_tcp (kernel_handlers w) (a i / 2 ^ 4 * 4) (swap16 (b i)) (swap16 (c i)) (d i) m p
            len n)
        ∙ deliver_tcp_reads w (tcp_header_len m' p) (swap16 (src_port m' p))
            (swap16 (dst_port m' p)) (ip_src m' ip) m m' p len n big g)

dispatch_reads :
    (w : Wait) (src_mac : List ℕ) (proto : ℕ) (m m' : Data) (ip p len : ℕ) (n : Net)
    → proto ≢ 17
    → Agree m m' ip 20
    → Agree m m' p len
    → dispatch_ipv4 (kernel_handlers w) src_mac proto m ip p len n
      ≡ dispatch_ipv4 (kernel_handlers w) src_mac proto m' ip p len n
unfolding dispatch_ipv4
dispatch_reads w src_mac proto m m' ip p len n not_udp h g =
    let other : (proto == 17) ≡ false = ground (arith, not_udp) in
    rw other (λ i.
      if proto == 1
      then icmp_reads src_mac m m' ip p len n h g i
      else if proto == 6
      then tcp_reads w m m' ip p len n h g i
      else n)

-- The length that an IPv4 packet states is at least that of its header, and at most that of its frame.
abbrev pub IsHonest : Data → ℕ → ℕ → Type 0
IsHonest m ip len =
    (ip_header_len m ip ≤ swap16 (ip_len m ip))
    × (swap16 (ip_len m ip) ≤ len)
    × (swap16 (ip_len m ip) < 2 ^ 16)

-- `net_handle_ipv4` behind the test of the length, on the fields of the packet.
unfoldable addressed : Wait → List ℕ → List ℕ → ℕ → ℕ → ℕ → Data → ℕ → Net → Net
addressed w src_mac dst proto header total m ip n =
    if not (same_bytes dst n.my_ip) && not (same_bytes dst (255 ∷ 255 ∷ 255 ∷ 255 ∷ []))
    then n
    else dispatch_ipv4 (kernel_handlers w) src_mac proto m ip (ip + header)
        (word16 (total + 2 ^ 16 - header)) n

-- What is left of the packet behind its header.
payload_length :
    (header total : ℕ)
    → header ≤ total
    → total < 2 ^ 16
    → word16 (total + 2 ^ 16 - header) ≡ total - header
payload_length header total a b = omega arith

addressed_reads :
    (w : Wait) (src_mac dst : List ℕ) (proto header total : ℕ) (m m' : Data) (ip len : ℕ) (n : Net)
    → proto ≢ 17
    → 20 ≤ len
    → header ≤ total
    → total ≤ len
    → total < 2 ^ 16
    → Agree m m' ip len
    → addressed w src_mac dst proto header total m ip n
      ≡ addressed w src_mac dst proto header total m' ip n
unfolding addressed
addressed_reads w src_mac dst proto header total m m' ip len n other big a b c h =
    let size = payload_length header total a c in
    guarded (not (same_bytes dst n.my_ip) && not (same_bytes dst (255 ∷ 255 ∷ 255 ∷ 255 ∷ []))) n
      (dispatch_ipv4 (kernel_handlers w) src_mac proto m ip (ip + header)
        (word16 (total + 2 ^ 16 - header)) n)
      (dispatch_ipv4 (kernel_handlers w) src_mac proto m' ip (ip + header)
        (word16 (total + 2 ^ 16 - header)) n)
      (λ s.
        dispatch_reads w src_mac proto m m' ip (ip + header) (word16 (total + 2 ^ 16 - header)) n
          other (Agree-part m m' ip len ip 20 h (omega arith) (omega arith))
          (Agree-part m m' ip len (ip + header) (word16 (total + 2 ^ 16 - header)) h (omega arith)
            (omega (arith, size))))

ipv4_reads :
    (w : Wait) (src_mac : List ℕ) (m m' : Data) (ip len : ℕ) (n : Net)
    → ip_proto m ip ≢ 17
    → IsHonest m ip len
    → Agree m m' ip len
    → net_handle_ipv4 (kernel_handlers w) src_mac m ip len n
      ≡ net_handle_ipv4 (kernel_handlers w) src_mac m' ip len n
unfolding net_handle_ipv4 addressed
ipv4_reads w src_mac m m' ip len n other honest h =
    guarded (ltb len 20) n
      (addressed w src_mac (ip_dst m ip) (ip_proto m ip) (ip_header_len m ip) (swap16 (ip_len m ip))
        m ip n)
      (addressed w src_mac (ip_dst m' ip) (ip_proto m' ip) (ip_header_len m' ip)
        (swap16 (ip_len m' ip)) m' ip n)
      (λ s.
        let big : 20 ≤ len = ground (arith, s) in
        let a = Agree-at m m' ip len ip h (omega arith) (omega arith) in
        let b = load_inside m m' ip len (ip + 2) h (omega arith) (omega arith) in
        let c = Agree-at m m' ip len (ip + 9) h (omega arith) (omega arith) in
        let d = bytes_inside m m' ip len (ip + 16) 4 h (omega arith) (omega arith) in
        addressed_reads w src_mac (ip_dst m ip) (ip_proto m ip) (ip_header_len m ip)
          (swap16 (ip_len m ip)) m m' ip len n other big honest.0 honest.1 honest.2 h
        ∙ (λ i. addressed w src_mac (d i) (c i) (a i % 2 ^ 4 * 4) (swap16 (b i)) m' ip n))

-- `net_handle_packet` by the type of the frame.
unfoldable by_type : Wait → ℕ → List ℕ → Data → ℕ → Net → Net
by_type w type' src m len n =
    if type' == 0x0806
    then net_handle_arp m 14 len n
    else if type' == 0x0800
    then net_handle_ipv4 (kernel_handlers w) src m 14 len n
    else n

by_type_reads :
    (w : Wait) (type' : ℕ) (src : List ℕ) (m m' : Data) (len : ℕ) (n : Net)
    → (type' ≢ 0x0800) ⊎ ((ip_proto m 14 ≢ 17) × IsHonest m 14 len)
    → Agree m m' 14 len
    → by_type w type' src m len n ≡ by_type w type' src m' len n
unfolding by_type
by_type_reads w type' src m m' len n (inl no_packet) h =
    let other : (type' == 0x0800) ≡ false = ground (arith, no_packet) in
    rw other (λ i. if type' == 0x0806 then arp_reads m m' 14 len n h i else n)
by_type_reads w type' src m m' len n (inr (other, honest)) h = λ i.
    if type' == 0x0806
    then arp_reads m m' 14 len n h i
    else if type' == 0x0800
    then ipv4_reads w src m m' 14 len n other honest h i
    else n

-- With the handlers that the kernel binds, a frame of `len` bytes is handled by these bytes alone:
-- whatever is behind them in memory, the result is the same. If it is of IPv4, it is not a datagram of
-- UDP, and the length that it states covers its header and fits the frame.
pub net_handle_packet_reads :
    (w : Wait) (m m' : Data) (len : ℕ) (n : Net)
    → (swap16 (eth_type m 0) ≢ 0x0800) ⊎ ((ip_proto m 14 ≢ 17) × IsHonest m 14 (len - 14))
    → Agree m m' 0 len
    → net_handle_packet (kernel_handlers w) m len n ≡ net_handle_packet (kernel_handlers w) m' len n
unfolding net_handle_packet by_type
net_handle_packet_reads w m m' len n honest h =
    let counted = record n { rx_packet_count = (n.rx_packet_count + 1) % 2 ^ 64 } in
    guarded (ltb len 14) n (by_type w (swap16 (eth_type m 0)) (eth_src m 0) m (len - 14) counted)
      (by_type w (swap16 (eth_type m' 0)) (eth_src m' 0) m' (len - 14) counted)
      (λ s.
        let big : 14 ≤ len = ground (arith, s) in
        let a = load_inside m m' 0 len 12 h (omega arith) (omega arith) in
        let b = bytes_inside m m' 0 len 6 6 h (omega arith) (omega arith) in
        by_type_reads w (swap16 (eth_type m 0)) (eth_src m 0) m m' (len - 14) counted honest
          (Agree-part m m' 0 len 14 (len - 14) h (omega arith) (omega arith))
        ∙ (λ i. by_type w (swap16 (a i)) (b i) m' (len - 14) counted))
