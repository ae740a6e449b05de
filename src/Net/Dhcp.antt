-- ===== src/Net/Dhcp.antt =====
-- src/kernel/dhcp.c: the client that asks for an address.
use zoho_os.Prelude.{
  ℕ, zero, suc, ◌+◌, ◌≤◌, ◌≡◌, refl, sym, ap, ◌∙◌, not, ◌&&◌, ◌||◌, List, [], ◌∷◌, ◌++◌, take,
  arith, ◌==◌, ltb, if◌then◌else◌,
}
use zoho_os.Net.{Net, Data, bytes_at, zeros}
use zoho_os.Net.Packet.{swap16, swap32, store16, store32, load32}
use zoho_os.Net.Arp.{net_udp_bind}
use zoho_os.Net.Send.{broadcast_ip, net_send_udp}

abbrev pub dhcp_xid : ℕ
dhcp_xid = 0x12345678

abbrev pub magic_cookie : ℕ
magic_cookie = 0x63825363

-- The size of `dhcp_packet_t`, where the options begin.
abbrev pub header_size : ℕ
header_size = 240

-- The bytes of a request with its options.
unfoldable pub dhcp_packet : ℕ → List ℕ → List ℕ → List ℕ
dhcp_packet flags mac options =
    1 ∷ 1 ∷ 6 ∷ 0 ∷ store32 (swap32 dhcp_xid)
    ++ (store16 0
        ++ (store16 (swap16 flags)
            ++ (zeros 16
                ++ (mac
                    ++ (zeros 10 ++ (zeros 192 ++ (store32 (swap32 magic_cookie) ++ options)))))))

-- The loop over the options of a reply, from `opt` on: the type of the message and the server.
unfoldable pub read_options : ℕ → Data → ℕ → ℕ → ℕ → List ℕ → ℕ × List ℕ
read_options zero m limit opt msg_type server = (msg_type, server)
read_options (suc fuel) m limit opt msg_type server =
    let value = opt + 2 in
    let msg = if m opt == 53 then m value else msg_type in
    let from = if m opt == 53 then server else if m opt == 54 then bytes_at m value 4 else server in
    let rest = read_options fuel m limit (value + m (opt + 1)) msg from in
    if ltb opt limit && not (m opt == 255) then rest else (msg_type, server)

-- The answer to an offer. It has room for 12 bytes of options, of which it writes 16.
unfoldable pub send_request : Net → Net
unfolding dhcp_packet net_send_udp
send_request n =
    let options =
      53 ∷ 1 ∷ 3 ∷ 50 ∷ 4 ∷ n.dhcp_offered_ip ++ (54 ∷ 4 ∷ n.dhcp_server_ip ++ 255 ∷ []) in
    net_send_udp broadcast_ip 68 67 (take (header_size + 12) (dhcp_packet 0 n.mac_addr options)) n

unfoldable pub net_set_ip : List ℕ → Net → Net
net_set_ip ip n = record n { my_ip = ip }

-- The reply is at `p` in memory. An option takes two bytes at least, so `len` rounds are enough.
unfoldable pub dhcp_handle : Data → ℕ → ℕ → Net → Net
unfolding read_options send_request net_set_ip
dhcp_handle m p len n =
    let (msg_type, server) = read_options len m (p + len) (p + header_size) 0 n.dhcp_server_ip in
    let heard = record n { dhcp_server_ip = server } in
    let yiaddr = bytes_at m (p + 16) 4 in
    if ltb len header_size
    then n
    else if not (m p == 2) || not (swap32 (load32 m (p + 236)) == magic_cookie)
    then n
    else if not (load32 m (p + 4) == swap32 dhcp_xid)
    then n
    else if msg_type == 2
    then send_request (record heard { dhcp_offered_ip = yiaddr })
    else if msg_type == 5
    then net_set_ip yiaddr heard
    else heard

-- `handler` is the address of `dhcp_handle`.
unfoldable pub dhcp_init : ℕ → Net → Net
unfolding net_udp_bind
dhcp_init handler n = net_udp_bind 68 handler n

unfoldable pub dhcp_discover : Net → Net
unfolding dhcp_packet net_send_udp
dhcp_discover n =
    net_send_udp broadcast_ip 68 67 (dhcp_packet 0x8000 n.mac_addr (53 ∷ 1 ∷ 1 ∷ 255 ∷ [])) n

read_options-stop :
    (fuel : ℕ) (m : Data) (limit opt msg_type : ℕ) (server : List ℕ)
    → limit ≤ opt
    → read_options fuel m limit opt msg_type server ≡ (msg_type, server)
unfolding read_options
read_options-stop zero m limit opt msg_type server h = refl
read_options-stop (suc fuel) m limit opt msg_type server h = ground (arith, h)

read_options-step :
    (fuel : ℕ) (m : Data) (limit opt msg_type : ℕ) (server : List ℕ)
    → read_options (suc fuel) m limit opt msg_type server ≡ (
        if ltb opt limit && not (m opt == 255)
        then read_options fuel m limit
            (opt + 2 + m (opt + 1))
            (if m opt == 53 then m (opt + 2) else msg_type)
            (if m opt == 53 then server else if m opt == 54 then bytes_at m (opt + 2) 4 else server)
        else (msg_type, server))
unfolding read_options
read_options-step fuel m limit opt msg_type server = refl

-- Once the fuel reaches the bytes that are left, more of it changes nothing.
pub read_options-enough :
    (fuel more : ℕ) (m : Data) (limit opt msg_type : ℕ) (server : List ℕ)
    → limit ≤ opt + fuel
    → read_options (fuel + more) m limit opt msg_type server
      ≡ read_options fuel m limit opt msg_type server
read_options-enough zero more m limit opt msg_type server h =
    read_options-stop (zero + more) m limit opt msg_type server (omega arith)
    ∙ sym (read_options-stop zero m limit opt msg_type server (omega arith))
read_options-enough (suc fuel) more m limit opt msg_type server h =
    let next = opt + 2 + m (opt + 1) in
    let msg = if m opt == 53 then m (opt + 2) else msg_type in
    let from =
      if m opt == 53 then server else if m opt == 54 then bytes_at m (opt + 2) 4 else server in
    ap (λ f. read_options f m limit opt msg_type server) {x = suc fuel + more}
      {y = suc (fuel + more)} (omega arith)
    ∙ read_options-step (fuel + more) m limit opt msg_type server
    ∙ ap (λ r. if ltb opt limit && not (m opt == 255) then r else (msg_type, server))
        (read_options-enough fuel more m limit next msg from (omega arith))
    ∙ sym (read_options-step fuel m limit opt msg_type server)
