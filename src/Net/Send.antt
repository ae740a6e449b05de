-- ===== src/Net/Send.antt =====
-- src/kernel/net.c: the functions that send packets.
use zoho_os.Prelude.{
  ℕ, zero, suc, ◌+◌, ◌%◌, ◌^◌, List, [], ◌∷◌, ◌++◌, take, length, Option, none, some, if◌then◌else◌,
}
use zoho_os.Net.{Net, Wait, word16, same_bytes, zeros}
use zoho_os.Net.Packet.{swap16, swap32, store16, store32}
use zoho_os.Net.Checksum.{sum_words, fold_carry, complement16, net_checksum}
use zoho_os.Net.Arp.{find_mac}

abbrev pub broadcast_mac : List ℕ
broadcast_mac = 255 ∷ 255 ∷ 255 ∷ 255 ∷ 255 ∷ 255 ∷ []

abbrev pub broadcast_ip : List ℕ
broadcast_ip = 255 ∷ 255 ∷ 255 ∷ 255 ∷ []

-- `eth_header_t` in front of the bytes of a packet.
unfoldable pub frame : List ℕ → ℕ → List ℕ → Net → List ℕ
frame dest_mac type' bytes n =
    take (word16 (14 + length bytes)) (dest_mac ++ (n.my_mac ++ (store16 (swap16 type') ++ bytes)))

unfoldable pub net_send_eth : List ℕ → ℕ → List ℕ → Net → Net
unfolding frame
net_send_eth dest_mac type' bytes n = record n {
  sent = n.sent ++ frame dest_mac type' bytes n ∷ [];
  tx_packet_count = (n.tx_packet_count + 1) % 2 ^ 64;
}

-- `arp_packet_t`
unfoldable pub arp_packet : ℕ → List ℕ → List ℕ → List ℕ → List ℕ → List ℕ
arp_packet oper src_mac src_ip dst_mac dst_ip =
    store16 (swap16 1)
    ++ (store16 (swap16 0x0800)
        ++ (6 ∷ 4 ∷ store16 (swap16 oper) ++ (src_mac ++ (src_ip ++ (dst_mac ++ dst_ip)))))

unfoldable pub net_send_arp_request : List ℕ → Net → Net
unfolding arp_packet net_send_eth
net_send_arp_request target_ip n =
    net_send_eth broadcast_mac 0x0806 (arp_packet 1 n.my_mac n.my_ip (zeros 6) target_ip) n

-- The bytes of `ipv4_packet_t` before its checksum, and the two addresses behind it.
unfoldable pub ip_start : ℕ → ℕ → List ℕ
ip_start proto total_len =
    0x45 ∷ 0 ∷ store16 (swap16 total_len)
    ++ (store16 (swap16 0) ++ (store16 (swap16 0) ++ 64 ∷ proto ∷ []))

unfoldable pub ip_header : ℕ → ℕ → List ℕ → List ℕ → List ℕ
unfolding ip_start
ip_header proto total_len src_ip dst_ip =
    let start = ip_start proto total_len in
    start ++ (store16 (net_checksum (start ++ 0 ∷ 0 ∷ (src_ip ++ dst_ip))) ++ (src_ip ++ dst_ip))

unfoldable pub net_send_ipv4 : List ℕ → List ℕ → ℕ → List ℕ → Net → Net
unfolding ip_header net_send_eth
net_send_ipv4 dest_ip dest_mac proto bytes n =
    let total_len = word16 (20 + length bytes) in
    net_send_eth dest_mac 0x0800
      (take total_len (ip_header proto total_len n.my_ip dest_ip ++ bytes)) n

-- The wait for an answer: a round polls the card and looks into the cache.
unfoldable pub wait_for_mac : ℕ → (Net → Net) → List ℕ → Net → Option (List ℕ) × Net
wait_for_mac zero e1000_poll target_ip n = (none, n)
wait_for_mac (suc rounds) e1000_poll target_ip n =
    let n' = e1000_poll n in
    let further = wait_for_mac rounds e1000_poll target_ip n' in
    elim (find_mac n'.arp_cache target_ip) [ none ↦ further | some mac ↦ (some mac, n') ]

-- The address of a machine: from the cache, or by asking and waiting.
unfoldable pub resolve : Wait → List ℕ → Net → Option (List ℕ) × Net
unfolding wait_for_mac
resolve w target_ip n = elim (find_mac n.arp_cache target_ip) [
  | none ↦ wait_for_mac w.rounds w.e1000_poll target_ip (net_send_arp_request target_ip n)
  | some mac ↦ (some mac, n)
]

-- The pseudo-header that the checksum of TCP includes.
unfoldable pub pseudo_header : List ℕ → List ℕ → ℕ → List ℕ
pseudo_header src_ip dst_ip total_len = src_ip ++ (dst_ip ++ 0 ∷ 6 ∷ store16 (swap16 total_len))

-- `tcp_packet_t` before its checksum, and the two bytes `urgent` with the data behind it.
unfoldable pub tcp_start : ℕ → ℕ → ℕ → ℕ → ℕ → List ℕ
tcp_start src_port dst_port seq ack flags =
    store16 (swap16 src_port)
    ++ (store16 (swap16 dst_port)
        ++ (store32 (swap32 seq) ++ (store32 (swap32 ack) ++ 0x50 ∷ flags ∷ store16 (swap16 8192))))

unfoldable pub tcp_segment : List ℕ → List ℕ → ℕ → ℕ → ℕ → ℕ → ℕ → List ℕ → List ℕ
unfolding tcp_start pseudo_header
tcp_segment my_ip target_ip src_port dst_port seq ack flags bytes =
    let start = tcp_start src_port dst_port seq ack flags in
    let total_len = word16 (20 + length bytes) in
    let pseudo = pseudo_header my_ip target_ip total_len in
    let sum = sum_words (take total_len (start ++ 0 ∷ 0 ∷ 0 ∷ 0 ∷ bytes)) (sum_words pseudo 0) in
    start ++ (store16 (complement16 (fold_carry sum)) ++ 0 ∷ 0 ∷ bytes)

-- What `net_send_tcp` does once it knows the address.
unfoldable pub send_tcp_to : List ℕ → List ℕ → ℕ → ℕ → ℕ → ℕ → ℕ → List ℕ → Net → Net
unfolding tcp_segment net_send_ipv4
send_tcp_to target_mac target_ip src_port dst_port seq ack flags bytes n =
    net_send_ipv4 target_ip target_mac 6
      (take (word16 (20 + length bytes))
        (tcp_segment n.my_ip target_ip src_port dst_port seq ack flags bytes))
      n

unfoldable pub net_send_tcp : Wait → List ℕ → ℕ → ℕ → ℕ → ℕ → ℕ → List ℕ → Net → Net
unfolding resolve send_tcp_to
net_send_tcp w target_ip src_port dst_port seq ack flags bytes n =
    let (found, n') = resolve w target_ip n in
    elim found [
      | none ↦ n'
      | some target_mac ↦ send_tcp_to target_mac target_ip src_port dst_port seq ack flags bytes n'
    ]

-- `udp_packet_t` with its data
unfoldable pub udp_datagram : ℕ → ℕ → List ℕ → List ℕ
udp_datagram src_port dst_port bytes =
    store16 (swap16 src_port)
    ++ (store16 (swap16 dst_port)
        ++ (store16 (swap16 (word16 (8 + length bytes))) ++ (store16 0 ++ bytes)))

unfoldable pub send_udp_to : List ℕ → List ℕ → ℕ → ℕ → List ℕ → Net → Net
unfolding udp_datagram net_send_ipv4
send_udp_to target_mac target_ip src_port dst_port bytes n =
    net_send_ipv4 target_ip target_mac 17
      (take (word16 (8 + length bytes)) (udp_datagram src_port dst_port bytes)) n

unfoldable pub net_send_udp : List ℕ → ℕ → ℕ → List ℕ → Net → Net
unfolding send_udp_to
net_send_udp target_ip src_port dst_port bytes n =
    if same_bytes target_ip broadcast_ip
    then send_udp_to broadcast_mac target_ip src_port dst_port bytes n
    else elim (find_mac n.arp_cache target_ip) [
      | none ↦ n
      | some target_mac ↦ send_udp_to target_mac target_ip src_port dst_port bytes n
    ]

-- `icmp_packet_t` with its data
unfoldable pub icmp_packet : ℕ → ℕ → List ℕ → List ℕ
icmp_packet type' code rest =
    type' ∷ code ∷ store16 (net_checksum (type' ∷ code ∷ 0 ∷ 0 ∷ rest)) ++ rest

unfoldable pub net_ping : Wait → List ℕ → Net → Net
unfolding resolve icmp_packet net_send_ipv4
net_ping w target_ip n =
    let (found, n') = resolve w target_ip n in
    elim found [
      | none ↦ n'
      | some target_mac ↦
          net_send_ipv4 target_ip target_mac 1
            (icmp_packet 8 0 (store16 (swap16 0x1234) ++ store16 (swap16 1))) n'
    ]
