-- ===== src/Net/Echo.antt =====
-- src/kernel/net.c: an echo request and its answer, between two machines.
use zoho_os.Prelude.{
  ℕ, ◌+◌, ◌%◌, ◌^◌, ◌<◌, ◌≡◌, refl, sym, ap, ◌∙◌, true, not, ◌&&◌, List, [], ◌∷◌, ◌++◌, length,
  Option, none, some, arith, if◌then◌else◌,
}
use zoho_os.Net.{Net, Data, Wait, bytes_at, in_memory, same_bytes}
use zoho_os.Net.Packet.{swap16, store16}
use zoho_os.Net.Checksum.{net_checksum, AllBytes, net_checksum-filled}
use zoho_os.Net.Arp.{find_mac, same_bytes_refl}
use zoho_os.Net.Send.{
  frame, net_send_eth, net_send_ipv4, ip_start, ip_header, icmp_packet, net_ping,
}
use zoho_os.Net.Receive.{
  Handlers, net_handle_icmp, dispatch_ipv4, net_handle_ipv4, net_handle_packet,
}
use zoho_os.Net.Exchange.{HasAddresses}
use zoho_os.Net.Known.{resolve_known}

-- The identifier 0x1234 and the sequence number 1, as they travel.
abbrev pub echo_data : List ℕ
echo_data = 18 ∷ 52 ∷ 0 ∷ 1 ∷ []

-- The frame of an echo packet, with its addresses byte by byte.
abbrev pub echo_frame : ℕ → Data → Data → Data → Data → List ℕ
echo_frame type' src_mac src_ip dst_mac dst_ip =
    bytes_at dst_mac 0 6
    ++ (bytes_at src_mac 0 6
        ++ (store16 (swap16 0x0800)
            ++ (ip_header 1 28 (bytes_at src_ip 0 4) (bytes_at dst_ip 0 4)
                ++ icmp_packet type' 0 echo_data)))

-- What `net_handle_packet` does with a request.
unfoldable pub echo_handled : List ℕ → List ℕ → List ℕ → Net → Net
unfolding net_send_ipv4 icmp_packet
echo_handled src_mac src_ip dst_ip n =
    let counted = record n { rx_packet_count = (n.rx_packet_count + 1) % 2 ^ 64 } in
    if not (same_bytes dst_ip n.my_ip) && not (same_bytes dst_ip (255 ∷ 255 ∷ 255 ∷ 255 ∷ []))
    then counted
    else net_send_ipv4 src_ip src_mac 1 (icmp_packet 0 0 echo_data) counted

echo_arrives :
    (hs : Handlers) (src_mac src_ip dst_mac dst_ip : Data) (n : Net)
    → net_handle_packet hs
        (in_memory (echo_frame 8 src_mac src_ip dst_mac dst_ip))
        (length (echo_frame 8 src_mac src_ip dst_mac dst_ip))
        n
      ≡ echo_handled (bytes_at src_mac 0 6) (bytes_at src_ip 0 4) (bytes_at dst_ip 0 4) n
unfolding net_handle_packet net_handle_ipv4 dispatch_ipv4 net_handle_icmp echo_handled ip_header
    ip_start icmp_packet swap16
echo_arrives hs src_mac src_ip dst_mac dst_ip n = refl

-- The frame that goes out with an ICMP packet of eight bytes, from a machine whose addresses are known.
sent_echo :
    (type' : ℕ) (n : Net) (mac ip dst_mac dst_ip : Data)
    → HasAddresses n mac ip
    → (net_send_ipv4
        (bytes_at dst_ip 0 4)
        (bytes_at dst_mac 0 6)
        1
        (icmp_packet type' 0 echo_data)
        n).sent
      ≡ n.sent ++ echo_frame type' mac ip dst_mac dst_ip ∷ []
unfolding net_send_ipv4 net_send_eth frame ip_header ip_start icmp_packet swap16
sent_echo type' n mac ip dst_mac dst_ip h = λ i.
    (net_send_ipv4 (bytes_at dst_ip 0 4) (bytes_at dst_mac 0 6) 1 (icmp_packet type' 0 echo_data)
      (record n { my_mac = h.has_mac i; my_ip = h.has_ip i })).sent

ping_known :
    (w : Wait) (mac target_ip : List ℕ) (n : Net)
    → find_mac n.arp_cache target_ip ≡ some mac
    → net_ping w target_ip n ≡ net_send_ipv4 target_ip mac 1 (icmp_packet 8 0 echo_data) n
unfolding net_ping swap16
ping_known w mac target_ip n h =
    ap
      (λ (r : Option (List ℕ) × Net). elim r.0 as (λ x. Net) [
        | none ↦ r.1
        | some m ↦ net_send_ipv4 target_ip m 1 (icmp_packet 8 0 echo_data) r.1
      ])
      (resolve_known w mac target_ip n h)

-- The answer to a request for its own address.
echo_answered :
    (src_mac src_ip dst_ip : List ℕ) (n : Net)
    → same_bytes dst_ip n.my_ip ≡ true
    → (echo_handled src_mac src_ip dst_ip n).sent
      ≡ (net_send_ipv4 src_ip src_mac 1 (icmp_packet 0 0 echo_data) n).sent
unfolding echo_handled net_send_ipv4 net_send_eth frame
echo_answered src_mac src_ip dst_ip n h = ground (arith, h)

append-AllBytes : (xs ys : List ℕ) → AllBytes xs → AllBytes ys → AllBytes (xs ++ ys)
append-AllBytes [] ys a b = b
append-AllBytes (x ∷ rest) ys a b = (a.0, append-AllBytes rest ys a.1 b)

store16-AllBytes : (x : ℕ) → AllBytes (store16 x)
store16-AllBytes x = (omega arith, (omega arith, tt))

ip_start-AllBytes : (proto total : ℕ) → proto < 2 ^ 8 → AllBytes (ip_start proto total)
unfolding ip_start
ip_start-AllBytes proto total small = (
  omega arith,
  (
    omega arith,
    append-AllBytes (store16 (swap16 total))
        (store16 (swap16 0) ++ (store16 (swap16 0) ++ 64 ∷ proto ∷ []))
        (store16-AllBytes (swap16 total))
        (append-AllBytes (store16 (swap16 0)) (store16 (swap16 0) ++ 64 ∷ proto ∷ [])
          (store16-AllBytes (swap16 0))
          (append-AllBytes (store16 (swap16 0)) (64 ∷ proto ∷ []) (store16-AllBytes (swap16 0))
            (omega arith, (small, tt)))),
  ),
)

-- The sum over a header that holds its own checksum is 0.
pub ip_header-checked :
    (proto total : ℕ) (src_ip dst_ip : Data)
    → proto < 2 ^ 8
    → AllBytes (bytes_at src_ip 0 4)
    → AllBytes (bytes_at dst_ip 0 4)
    → net_checksum (ip_header proto total (bytes_at src_ip 0 4) (bytes_at dst_ip 0 4)) ≡ 0
unfolding ip_header ip_start
ip_header-checked proto total src_ip dst_ip small a b =
    net_checksum-filled (ip_start proto total) (bytes_at src_ip 0 4 ++ bytes_at dst_ip 0 4) tt
      (append-AllBytes (ip_start proto total) (0 ∷ 0 ∷ (bytes_at src_ip 0 4 ++ bytes_at dst_ip 0 4))
        (ip_start-AllBytes proto total small)
        (
          omega arith,
          (omega arith, append-AllBytes (bytes_at src_ip 0 4) (bytes_at dst_ip 0 4) a b),
        ))
      (omega arith)

-- What the machines `a` and `b` have sent when `a` has sent an echo request to `b` and `b` has handled
-- it, and that both checksums of the answer are right.
pub record Echoed (w : Wait) (hs : Handlers) (a b : Net) : Type 0 where
  pub request : List ℕ
  pub answer : List ℕ
  pub asks : (net_ping w b.my_ip a).sent ≡ a.sent ++ request ∷ []
  pub answers :
      (net_handle_packet hs (in_memory request) (length request) b).sent ≡ b.sent ++ answer ∷ []
  pub to_asker : bytes_at (in_memory answer) 0 6 ≡ a.my_mac
  pub same_data : bytes_at (in_memory answer) 38 4 ≡ bytes_at (in_memory request) 38 4
  pub ip_checked : net_checksum (bytes_at (in_memory answer) 14 20) ≡ 0
  pub icmp_checked : net_checksum (bytes_at (in_memory answer) 34 8) ≡ 0

answer_checked :
    (src_mac src_ip dst_mac dst_ip : Data)
    → AllBytes (bytes_at src_ip 0 4)
    → AllBytes (bytes_at dst_ip 0 4)
    → net_checksum (bytes_at (in_memory (echo_frame 0 src_mac src_ip dst_mac dst_ip)) 14 20) ≡ 0
unfolding ip_header ip_start icmp_packet
answer_checked src_mac src_ip dst_mac dst_ip a b =
    ip_header-checked 1 28 src_ip dst_ip (omega arith) a b

icmp_checked_here :
    (src_mac src_ip dst_mac dst_ip : Data)
    → net_checksum (bytes_at (in_memory (echo_frame 0 src_mac src_ip dst_mac dst_ip)) 34 8) ≡ 0
unfolding ip_header ip_start icmp_packet net_checksum
icmp_checked_here src_mac src_ip dst_mac dst_ip = refl

same_echo :
    (a_mac a_ip b_mac b_ip : Data)
    → bytes_at (in_memory (echo_frame 0 b_mac b_ip a_mac a_ip)) 38 4
      ≡ bytes_at (in_memory (echo_frame 8 a_mac a_ip b_mac b_ip)) 38 4
unfolding ip_header ip_start icmp_packet
same_echo a_mac a_ip b_mac b_ip = refl

-- An echo request to a machine whose address is known goes out in one frame, and the machine that
-- handles it sends one frame back: to the asker, with the same data and with both checksums right.
pub ping-Echoed :
    (w : Wait) (hs : Handlers) (a b : Net) (a_mac a_ip b_mac b_ip : Data)
    → HasAddresses a a_mac a_ip
    → HasAddresses b b_mac b_ip
    → AllBytes (bytes_at a_ip 0 4)
    → AllBytes (bytes_at b_ip 0 4)
    → find_mac a.arp_cache (bytes_at b_ip 0 4) ≡ some (bytes_at b_mac 0 6)
    → Echoed w hs a b
ping-Echoed w hs a b a_mac a_ip b_mac b_ip ha hb bytes_a bytes_b known =
    let ai = bytes_at a_ip 0 4 in
    let bi = bytes_at b_ip 0 4 in
    let am = bytes_at a_mac 0 6 in
    let mine : same_bytes bi b.my_ip ≡ true = ap (same_bytes bi) hb.has_ip ∙ same_bytes_refl bi in
    record {
      request = echo_frame 8 a_mac a_ip b_mac b_ip;
      answer = echo_frame 0 b_mac b_ip a_mac a_ip;
      asks =
          ap (λ t. (net_ping w t a).sent) hb.has_ip
          ∙ ap (λ (n : Net). n.sent) (ping_known w (bytes_at b_mac 0 6) bi a known)
          ∙ sent_echo 8 a a_mac a_ip b_mac b_ip ha;
      answers =
          ap (λ (n : Net). n.sent) (echo_arrives hs a_mac a_ip b_mac b_ip b)
          ∙ echo_answered am ai bi b mine
          ∙ sent_echo 0 b b_mac b_ip a_mac a_ip hb;
      to_asker = sym ha.has_mac;
      same_data = same_echo a_mac a_ip b_mac b_ip;
      ip_checked = answer_checked b_mac b_ip a_mac a_ip bytes_b bytes_a;
      icmp_checked = icmp_checked_here b_mac b_ip a_mac a_ip;
    }
