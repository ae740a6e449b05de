-- ===== src/Net/Exchange.antt =====
-- src/kernel/net.c: a request for an address and its answer, between two machines.
use zoho_os.Prelude.{
  ℕ, ◌+◌, ◌%◌, ◌^◌, ◌≡◌, refl, sym, ap, ◌∙◌, true, ◌&&◌, List, [], ◌∷◌, ◌++◌, take, length, none,
  some, arith, ◌==◌, if◌then◌else◌,
}
use zoho_os.Net.{Net, Data, word16, bytes_at, in_memory, zeros, same_bytes}
use zoho_os.Net.Packet.{swap16, store16}
use zoho_os.Net.Arp.{update_cache, find_mac, has_slot, find_mac-update_cache, same_bytes_refl}
use zoho_os.Net.Send.{frame, net_send_eth, arp_packet, net_send_arp_request, broadcast_mac}
use zoho_os.Net.Receive.{Handlers, learn_and_answer, net_handle_arp, net_handle_packet}

-- The frame of an ARP packet, with its addresses byte by byte.
abbrev pub arp_frame : ℕ → Data → Data → Data → Data → Data → List ℕ
arp_frame oper dest src_mac src_ip dst_mac dst_ip =
    bytes_at dest 0 6
    ++ (bytes_at src_mac 0 6
        ++ (store16 (swap16 0x0806)
            ++ arp_packet oper (bytes_at src_mac 0 6) (bytes_at src_ip 0 4) (bytes_at dst_mac 0 6)
                (bytes_at dst_ip 0 4)))

-- What `net_handle_packet` does with such a frame.
unfoldable pub arp_handled : ℕ → List ℕ → List ℕ → List ℕ → Net → Net
unfolding net_send_eth arp_packet
arp_handled oper src_mac src_ip dst_ip n =
    let known = record n {
      rx_packet_count = (n.rx_packet_count + 1) % 2 ^ 64;
      arp_cache = update_cache n.arp_cache src_ip src_mac;
    } in
    if oper == 1 && same_bytes dst_ip n.my_ip
    then net_send_eth src_mac 0x0806 (arp_packet 2 n.my_mac n.my_ip src_mac src_ip) known
    else known

request_arrives :
    (hs : Handlers) (dest src_mac src_ip dst_mac dst_ip : Data) (n : Net)
    → net_handle_packet hs
        (in_memory (arp_frame 1 dest src_mac src_ip dst_mac dst_ip))
        (length (arp_frame 1 dest src_mac src_ip dst_mac dst_ip))
        n
      ≡ arp_handled 1 (bytes_at src_mac 0 6) (bytes_at src_ip 0 4) (bytes_at dst_ip 0 4) n
unfolding net_handle_packet net_handle_arp learn_and_answer arp_handled arp_packet swap16
request_arrives hs dest src_mac src_ip dst_mac dst_ip n = refl

answer_arrives :
    (hs : Handlers) (dest src_mac src_ip dst_mac dst_ip : Data) (n : Net)
    → net_handle_packet hs
        (in_memory (arp_frame 2 dest src_mac src_ip dst_mac dst_ip))
        (length (arp_frame 2 dest src_mac src_ip dst_mac dst_ip))
        n
      ≡ arp_handled 2 (bytes_at src_mac 0 6) (bytes_at src_ip 0 4) (bytes_at dst_ip 0 4) n
unfolding net_handle_packet net_handle_arp learn_and_answer arp_handled arp_packet swap16
answer_arrives hs dest src_mac src_ip dst_mac dst_ip n = refl

-- The bytes of a machine's two addresses.
pub record HasAddresses (n : Net) (mac ip : Data) : Type 0 where
  pub has_mac : n.my_mac ≡ bytes_at mac 0 6
  pub has_ip : n.my_ip ≡ bytes_at ip 0 4

request_frame :
    (a : Net) (mac ip target : Data)
    → HasAddresses a mac ip
    → frame broadcast_mac 0x0806 (arp_packet 1 a.my_mac a.my_ip (zeros 6) (bytes_at target 0 4)) a
      ≡ arp_frame 1 (λ i. 255) mac ip (λ i. 0) target
unfolding frame arp_packet swap16
request_frame a mac ip target h = λ i.
    take
      (word16
        (14 + length (arp_packet 1 (h.has_mac i) (h.has_ip i) (zeros 6) (bytes_at target 0 4))))
      (broadcast_mac
        ++ (h.has_mac i
            ++ (store16 (swap16 0x0806)
                ++ arp_packet 1 (h.has_mac i) (h.has_ip i) (zeros 6) (bytes_at target 0 4))))

answer_frame :
    (b : Net) (mac ip dst_mac dst_ip : Data)
    → HasAddresses b mac ip
    → frame
        (bytes_at dst_mac 0 6)
        0x0806
        (arp_packet 2 b.my_mac b.my_ip (bytes_at dst_mac 0 6) (bytes_at dst_ip 0 4))
        b
      ≡ arp_frame 2 dst_mac mac ip dst_mac dst_ip
unfolding frame arp_packet swap16
answer_frame b mac ip dst_mac dst_ip h = λ i.
    take
      (word16 (
        14
        + length
            (arp_packet 2 (h.has_mac i) (h.has_ip i) (bytes_at dst_mac 0 6) (bytes_at dst_ip 0 4))))
      (bytes_at dst_mac 0 6
        ++ (h.has_mac i
            ++ (store16 (swap16 0x0806)
                ++ arp_packet 2 (h.has_mac i) (h.has_ip i) (bytes_at dst_mac 0 6)
                    (bytes_at dst_ip 0 4))))

-- What the machines `a` and `b` know when `a` has asked for the address of `b`, `b` has handled the
-- request and `a` the answer.
pub record Exchanged (hs : Handlers) (a b : Net) : Type 0 where
  pub request : List ℕ
  pub answer : List ℕ
  pub asks : (net_send_arp_request b.my_ip a).sent ≡ a.sent ++ request ∷ []
  pub answers :
      (net_handle_packet hs (in_memory request) (length request) b).sent ≡ b.sent ++ answer ∷ []
  pub b_knows :
      find_mac (net_handle_packet hs (in_memory request) (length request) b).arp_cache a.my_ip
      ≡ (if has_slot b.arp_cache a.my_ip then some a.my_mac else none)
  pub a_knows :
      find_mac
        (net_handle_packet hs
          (in_memory answer)
          (length answer)
          (net_send_arp_request b.my_ip a)).arp_cache
        b.my_ip
      ≡ (if has_slot a.arp_cache b.my_ip then some b.my_mac else none)
  pub no_more :
      (net_handle_packet hs
        (in_memory answer)
        (length answer)
        (net_send_arp_request b.my_ip a)).sent
      ≡ (net_send_arp_request b.my_ip a).sent

-- Of what a machine handled, its own address is known.
find-handled :
    (oper : ℕ) (src_mac src_ip dst_ip : List ℕ) (n : Net)
    → find_mac (arp_handled oper src_mac src_ip dst_ip n).arp_cache src_ip
      ≡ (if has_slot n.arp_cache src_ip then some src_mac else none)
unfolding arp_handled net_send_eth
find-handled oper src_mac src_ip dst_ip n =
    ground (arith, find_mac-update_cache n.arp_cache src_ip src_mac src_ip, same_bytes_refl src_ip)

-- A request for its own address is answered.
answered :
    (src_mac src_ip dst_ip : List ℕ) (n : Net)
    → same_bytes dst_ip n.my_ip ≡ true
    → (arp_handled 1 src_mac src_ip dst_ip n).sent
      ≡ n.sent ++ frame src_mac 0x0806 (arp_packet 2 n.my_mac n.my_ip src_mac src_ip) n ∷ []
unfolding arp_handled net_send_eth frame
answered src_mac src_ip dst_ip n h = ground (arith, h)

not_answered :
    (src_mac src_ip dst_ip : List ℕ) (n : Net)
    → (arp_handled 2 src_mac src_ip dst_ip n).sent ≡ n.sent
unfolding arp_handled
not_answered src_mac src_ip dst_ip n = refl

asked :
    (target_ip : List ℕ) (n : Net)
    → (net_send_arp_request target_ip n).sent
      ≡ n.sent
        ++ frame broadcast_mac 0x0806 (arp_packet 1 n.my_mac n.my_ip (zeros 6) target_ip) n ∷ []
unfolding net_send_arp_request net_send_eth
asked target_ip n = refl

asked_cache :
    (target_ip : List ℕ) (n : Net) → (net_send_arp_request target_ip n).arp_cache ≡ n.arp_cache
unfolding net_send_arp_request net_send_eth
asked_cache target_ip n = refl

-- A request, and the answer of the machine that has the address, teach each of two machines the
-- other's address, if there is a place for it in its cache; nothing more is sent.
pub arp-Exchanged :
    (hs : Handlers) (a b : Net) (a_mac a_ip b_mac b_ip : Data)
    → HasAddresses a a_mac a_ip
    → HasAddresses b b_mac b_ip
    → Exchanged hs a b
arp-Exchanged hs a b a_mac a_ip b_mac b_ip ha hb =
    let ones : Data = λ i. 255 in
    let none_yet : Data = λ i. 0 in
    let req = arp_frame 1 ones a_mac a_ip none_yet b_ip in
    let ans = arp_frame 2 a_mac b_mac b_ip a_mac a_ip in
    let am = bytes_at a_mac 0 6 in
    let ai = bytes_at a_ip 0 4 in
    let bm = bytes_at b_mac 0 6 in
    let bi = bytes_at b_ip 0 4 in
    let a' = net_send_arp_request b.my_ip a in
    let came = request_arrives hs ones a_mac a_ip none_yet b_ip b in
    let back = answer_arrives hs a_mac b_mac b_ip a_mac a_ip a' in
    let mine : same_bytes bi b.my_ip ≡ true = ap (same_bytes bi) hb.has_ip ∙ same_bytes_refl bi in
    record {
      request = req;
      answer = ans;
      asks =
          ap (λ t. (net_send_arp_request t a).sent) hb.has_ip
          ∙ asked bi a
          ∙ ap (λ f. a.sent ++ f ∷ []) (request_frame a a_mac a_ip b_ip ha);
      answers =
          ap (λ n. n.sent) came
          ∙ answered am ai bi b mine
          ∙ ap (λ f. b.sent ++ f ∷ []) (answer_frame b b_mac b_ip a_mac a_ip hb);
      b_knows =
          ap (λ n. find_mac n.arp_cache a.my_ip) came
          ∙ ap (find_mac (arp_handled 1 am ai bi b).arp_cache) ha.has_ip
          ∙ find-handled 1 am ai bi b
          ∙ sym (λ i. if has_slot b.arp_cache (ha.has_ip i) then some (ha.has_mac i) else none);
      a_knows =
          ap (λ n. find_mac n.arp_cache b.my_ip) back
          ∙ ap (find_mac (arp_handled 2 bm bi ai a').arp_cache) hb.has_ip
          ∙ find-handled 2 bm bi ai a'
          ∙ ap (λ c. if has_slot c bi then some bm else none) (asked_cache b.my_ip a)
          ∙ sym (λ i. if has_slot a.arp_cache (hb.has_ip i) then some (hb.has_mac i) else none);
      no_more = ap (λ n. n.sent) back ∙ not_answered bm bi ai a';
    }
