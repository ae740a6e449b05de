-- ===== src/Net/Receive.antt =====
-- src/kernel/net.c: the handlers of packets that arrive.
use zoho_os.Prelude.{
  ℕ, ◌+◌, ◌-◌, ◌%◌, ◌^◌, false, not, ◌&&◌, ◌||◌, List, [], ◌∷◌, none, some, ◌==◌, ltb,
  if◌then◌else◌,
}
use zoho_os.Net.{Net, Wait, Data, Binding, word16, same_bytes, bytes_at, zeros, copies}
use zoho_os.Net.Packet.{
  swap16, eth_type, eth_src, arp_htype, arp_ptype, arp_oper, arp_src_mac, arp_src_ip, arp_dst_ip,
  ip_header_len, ip_len, ip_proto, ip_src, ip_dst, src_port, dst_port, udp_length, tcp_header_len,
}
use zoho_os.Net.Arp.{update_cache, find_handler}
use zoho_os.Net.Send.{arp_packet, net_send_eth, net_send_ipv4, icmp_packet}
use zoho_os.Net.Tcp.{tcp_handle_packet}
use zoho_os.Net.Dhcp.{dhcp_handle}

-- What a call of a handler does, by the handler's address: `udp_handler_t` gets the sender, the two
-- ports and where the payload is and how long, `tcp_handler_t` also where the segment begins.
pub record Handlers : Type 0 where
  pub udp : ℕ → List ℕ → ℕ → ℕ → Data → ℕ → ℕ → Net → Net
  pub tcp : ℕ → List ℕ → ℕ → ℕ → Data → ℕ → ℕ → ℕ → Net → Net

-- The kernel binds two handlers: `dhcp_handle`, and `tcp_handle_packet`, which reads no payload.
unfoldable pub kernel_handlers : Wait → Handlers
unfolding dhcp_handle tcp_handle_packet
kernel_handlers w = record {
  udp = λ handler sender from to m p len n. dhcp_handle m p len n;
  tcp = λ handler sender from to m p payload len n. tcp_handle_packet w sender from to m p n;
}

-- `net_handle_arp` behind the test of the length, on the fields of the packet.
unfoldable pub learn_and_answer : ℕ → ℕ → ℕ → List ℕ → List ℕ → List ℕ → Net → Net
unfolding update_cache arp_packet net_send_eth
learn_and_answer htype ptype oper src_mac src_ip dst_ip n =
    let known = record n { arp_cache = update_cache n.arp_cache src_ip src_mac } in
    if not (swap16 htype == 1) || not (swap16 ptype == 0x0800)
    then n
    else if swap16 oper == 1 && same_bytes dst_ip known.my_ip
    then net_send_eth src_mac 0x0806 (arp_packet 2 known.my_mac known.my_ip src_mac src_ip) known
    else known

-- The packet is at `p` in memory, here and below.
unfoldable pub net_handle_arp : Data → ℕ → ℕ → Net → Net
unfolding learn_and_answer
net_handle_arp m p len n =
    if ltb len 28
    then n
    else learn_and_answer (arp_htype m p) (arp_ptype m p) (arp_oper m p) (arp_src_mac m p)
        (arp_src_ip m p) (arp_dst_ip m p) n

-- The IPv4 packet is at `ip`, its payload at `p`.
unfoldable pub net_handle_icmp : List ℕ → Data → ℕ → ℕ → ℕ → Net → Net
unfolding icmp_packet net_send_ipv4
net_handle_icmp src_mac m ip p len n =
    if ltb len 8
    then n
    else if m p == 8
    then net_send_ipv4 (ip_src m ip) src_mac 1
        (icmp_packet 0 (m (p + 1)) (bytes_at m (p + 4) (len - 4))) n
    else n

-- `net_handle_udp` behind the test of the length, on the fields of the datagram.
unfoldable pub deliver_udp : Handlers → ℕ → ℕ → ℕ → List ℕ → Data → ℕ → ℕ → Net → Net
unfolding find_handler
deliver_udp hs udp_len from to src_ip m p len n =
    if ltb udp_len 8 || ltb len udp_len then n else elim (find_handler n.udp_bindings to) [
      | none ↦ n
      | some handler ↦ hs.udp handler src_ip from to m (p + 8) (udp_len - 8) n
    ]

unfoldable pub net_handle_udp : Handlers → Data → ℕ → ℕ → ℕ → Net → Net
unfolding deliver_udp
net_handle_udp hs m ip p len n =
    if ltb len 8
    then n
    else deliver_udp hs (swap16 (udp_length m p)) (swap16 (src_port m p)) (swap16 (dst_port m p))
        (ip_src m ip) m p len n

-- `net_handle_tcp` behind the test of the length, on the fields of the segment.
unfoldable pub deliver_tcp : Handlers → ℕ → ℕ → ℕ → List ℕ → Data → ℕ → ℕ → Net → Net
unfolding find_handler
deliver_tcp hs header_len from to src_ip m p len n =
    if ltb header_len 20 || ltb len header_len then n else elim (find_handler n.tcp_bindings to) [
      | none ↦ n
      | some handler ↦ hs.tcp handler src_ip from to m p (p + header_len) (len - header_len) n
    ]

unfoldable pub net_handle_tcp : Handlers → Data → ℕ → ℕ → ℕ → Net → Net
unfolding deliver_tcp
net_handle_tcp hs m ip p len n =
    if ltb len 20
    then n
    else deliver_tcp hs (tcp_header_len m p) (swap16 (src_port m p)) (swap16 (dst_port m p))
        (ip_src m ip) m p len n

-- `net_handle_ipv4` by the protocol of the packet.
unfoldable pub dispatch_ipv4 : Handlers → List ℕ → ℕ → Data → ℕ → ℕ → ℕ → Net → Net
unfolding net_handle_icmp net_handle_udp net_handle_tcp
dispatch_ipv4 hs src_mac proto m ip p len n =
    if proto == 1
    then net_handle_icmp src_mac m ip p len n
    else if proto == 17
    then net_handle_udp hs m ip p len n
    else if proto == 6
    then net_handle_tcp hs m ip p len n
    else n

-- The first four bytes of `broadcast_mac` are the address 255.255.255.255. The length of the payload is
-- what the packet says, not what arrived.
unfoldable pub net_handle_ipv4 : Handlers → List ℕ → Data → ℕ → ℕ → Net → Net
unfolding dispatch_ipv4
net_handle_ipv4 hs src_mac m ip len n =
    let payload = ip + ip_header_len m ip in
    let payload_len = word16 (swap16 (ip_len m ip) + 2 ^ 16 - ip_header_len m ip) in
    if ltb len 20
    then n
    else if not (same_bytes (ip_dst m ip) n.my_ip)
        && not (same_bytes (ip_dst m ip) (255 ∷ 255 ∷ 255 ∷ 255 ∷ []))
    then n
    else dispatch_ipv4 hs src_mac (ip_proto m ip) m ip payload payload_len n

unfoldable pub net_handle_packet : Handlers → Data → ℕ → Net → Net
unfolding net_handle_arp net_handle_ipv4
net_handle_packet hs m len n =
    let type' = swap16 (eth_type m 0) in
    let counted = record n { rx_packet_count = (n.rx_packet_count + 1) % 2 ^ 64 } in
    if ltb len 14
    then n
    else if type' == 0x0806
    then net_handle_arp m 14 (len - 14) counted
    else if type' == 0x0800
    then net_handle_ipv4 hs (eth_src m 0) m 14 (len - 14) counted
    else counted

abbrev pub no_binding : Binding
no_binding = record { port = 0; handler = 0; valid = false }

-- The arrays have 32, 16 and 16 entries.
unfoldable pub net_init : Net → Net
net_init n = record n {
  my_mac = n.mac_addr;
  arp_cache = copies 32 (record { ip = zeros 4; mac = zeros 6; valid = false });
  udp_bindings = copies 16 no_binding;
  tcp_bindings = copies 16 no_binding;
}

unfoldable pub net_get_rx_count : Net → ℕ
net_get_rx_count n = n.rx_packet_count

unfoldable pub net_get_tx_count : Net → ℕ
net_get_tx_count n = n.tx_packet_count

unfoldable pub net_get_ip : Net → List ℕ
net_get_ip n = n.my_ip
