-- ===== src/Net/Tests.antt =====
-- src/kernel/net.c, src/kernel/tcp.c, src/kernel/dhcp.c: the theorems of the network at concrete
-- machines, and runs of the code.
use zoho_os.Prelude.{
  inr, if◌then◌else◌, ltb, ℕ, ◌≡◌, refl, true, false, List, [], ◌∷◌, ◌++◌, some, arith,
}
use zoho_os.Net.{Net, Wait, Data, syn_sent, established, bytes_at, in_memory, zeros, copies}
use zoho_os.Net.Packet.{swap16, swap32, store16}
use zoho_os.Net.Checksum.{net_checksum, net_checksum-filled}
use zoho_os.Net.Arp.{find_mac}
use zoho_os.Net.Tcp.{no_conn, tcp_handle_packet}
use zoho_os.Net.Receive.{kernel_handlers, no_binding, net_handle_packet}
use zoho_os.Net.Exchange.{Exchanged, arp-Exchanged}
use zoho_os.Net.Bounds.{Agree, IsHonest, net_handle_packet_reads}
use zoho_os.Net.Echo.{Echoed, ping-Echoed}

abbrev alice_mac : Data
alice_mac = in_memory (82 ∷ 84 ∷ 0 ∷ 18 ∷ 52 ∷ 86 ∷ [])

abbrev alice_ip : Data
alice_ip = in_memory (10 ∷ 0 ∷ 2 ∷ 15 ∷ [])

abbrev bob_mac : Data
bob_mac = in_memory (82 ∷ 85 ∷ 10 ∷ 0 ∷ 2 ∷ 2 ∷ [])

abbrev bob_ip : Data
bob_ip = in_memory (10 ∷ 0 ∷ 2 ∷ 2 ∷ [])

-- A machine that has just started.
abbrev fresh : Data → Data → Net
fresh mac ip = record {
  rx_packet_count = 0;
  tx_packet_count = 0;
  my_ip = bytes_at ip 0 4;
  my_mac = bytes_at mac 0 6;
  mac_addr = bytes_at mac 0 6;
  arp_cache = copies 32 (record { ip = zeros 4; mac = zeros 6; valid = false });
  udp_bindings = copies 16 no_binding;
  tcp_bindings = copies 16 no_binding;
  connections = copies 16 no_conn;
  next_local_port = 49152;
  dhcp_offered_ip = zeros 4;
  dhcp_server_ip = zeros 4;
  sent = [];
}

abbrev alice : Net
alice = fresh alice_mac alice_ip

abbrev bob : Net
bob = fresh bob_mac bob_ip

abbrev alice_knows : Net
alice_knows = record alice {
  arp_cache = (record { ip = bytes_at bob_ip 0 4; mac = bytes_at bob_mac 0 6; valid = true }) ∷ [];
}

-- No packet comes while a machine waits.
abbrev quiet : Wait
quiet = record { rounds = 0; e1000_poll = λ n. n }

arp-Exchanged_example : Exchanged (kernel_handlers quiet) alice bob
arp-Exchanged_example =
    arp-Exchanged (kernel_handlers quiet) alice bob alice_mac alice_ip bob_mac bob_ip
      (record { has_mac = refl; has_ip = refl }) (record { has_mac = refl; has_ip = refl })

bob_known : find_mac alice_knows.arp_cache (bytes_at bob_ip 0 4) ≡ some (bytes_at bob_mac 0 6)
unfolding find_mac
bob_known = refl

ping-Echoed_example : Echoed quiet (kernel_handlers quiet) alice_knows bob
ping-Echoed_example =
    ping-Echoed quiet (kernel_handlers quiet) alice_knows bob alice_mac alice_ip bob_mac bob_ip
      (record { has_mac = refl; has_ip = refl }) (record { has_mac = refl; has_ip = refl })
      (omega arith, (omega arith, (omega arith, (omega arith, tt))))
      (omega arith, (omega arith, (omega arith, (omega arith, tt)))) bob_known

-- A connection that waits for the answer to its SYN, and that answer: 1000 is its sequence number.
abbrev asking : Net
asking = record alice_knows {
  connections =
      (record no_conn {
        remote_ip = bytes_at bob_ip 0 4;
        remote_port = 80;
        local_port = 49152;
        state = syn_sent;
        seq = 0x12345679;
      })
      ∷ [];
}

abbrev syn_ack : Data
syn_ack = in_memory (
    0 ∷ 80 ∷ 192 ∷ 0 ∷ 0 ∷ 0 ∷ 3 ∷ 232 ∷ 18 ∷ 52 ∷ 86 ∷ 121 ∷ 80 ∷ 18 ∷ 32 ∷ 0 ∷ 0 ∷ 0 ∷ 0 ∷ 0 ∷ [])

syn_ack_opens :
    (tcp_handle_packet quiet (bytes_at bob_ip 0 4) 80 49152 syn_ack 0 asking).connections
    ≡ (record no_conn {
      remote_ip = bytes_at bob_ip 0 4;
      remote_port = 80;
      local_port = 49152;
      state = established;
      seq = 0x12345679;
      ack = 1001;
      remote_seq = 1001;
      remote_ack = 0x12345679;
    })
      ∷ []
unfolding tcp_handle_packet find_mac swap32
syn_ack_opens = refl

net_checksum-filled_example :
    net_checksum (
      (1 ∷ 2 ∷ [])
      ++ (store16 (net_checksum ((1 ∷ 2 ∷ []) ++ 0 ∷ 0 ∷ (255 ∷ 255 ∷ 7 ∷ [])))
          ++ (255 ∷ 255 ∷ 7 ∷ [])))
    ≡ 0
net_checksum-filled_example =
    net_checksum-filled (1 ∷ 2 ∷ []) (255 ∷ 255 ∷ 7 ∷ []) tt
      (
        omega arith,
        (
          omega arith,
          (omega arith, (omega arith, (omega arith, (omega arith, (omega arith, tt))))),
        ),
      )
      (omega arith)

-- An echo request with two bytes from Alice to Bob, and the same with other bytes behind it.
abbrev request : Data
request = in_memory (
    bytes_at bob_mac 0 6
    ++ (bytes_at alice_mac 0 6
        ++ (8
            ∷ 0
            ∷ 69
            ∷ 0
            ∷ 0
            ∷ 30
            ∷ 0
            ∷ 0
            ∷ 0
            ∷ 0
            ∷ 64
            ∷ 1
            ∷ 0
            ∷ 0
            ∷ (bytes_at alice_ip 0 4
                ++ (bytes_at bob_ip 0 4 ++ 8 ∷ 0 ∷ 0 ∷ 0 ∷ 0 ∷ 1 ∷ 0 ∷ 1 ∷ 5 ∷ 6 ∷ [])))))

abbrev followed : Data
followed i = if ltb i 44 then request i else 7

followed-Agree : Agree request followed 0 44
followed-Agree i h = ground (arith, h)

request-IsHonest : IsHonest request 14 30
unfolding swap16
request-IsHonest = (omega arith, omega arith, omega arith)

net_handle_packet_reads_example :
    net_handle_packet (kernel_handlers quiet) request 44 bob
    ≡ net_handle_packet (kernel_handlers quiet) followed 44 bob
net_handle_packet_reads_example =
    net_handle_packet_reads quiet request followed 44 bob (inr ((omega arith), request-IsHonest))
      followed-Agree

-- An echo request that says that it is longer than its frame is answered with the bytes behind it.
abbrev bleeding : Data
bleeding = in_memory (
    bytes_at bob_mac 0 6
    ++ (bytes_at alice_mac 0 6
        ++ (8
            ∷ 0
            ∷ 69
            ∷ 0
            ∷ 0
            ∷ 30
            ∷ 0
            ∷ 0
            ∷ 0
            ∷ 0
            ∷ 64
            ∷ 1
            ∷ 0
            ∷ 0
            ∷ (bytes_at alice_ip 0 4
                ++ (bytes_at bob_ip 0 4 ++ 8 ∷ 0 ∷ 0 ∷ 0 ∷ 0 ∷ 0 ∷ 0 ∷ 0 ∷ 5 ∷ 6 ∷ [])))))

-- The last two bytes of the one frame that answers it.
abbrev last_two : List (List ℕ) → List ℕ
last_two [] = []
last_two (f ∷ rest) = bytes_at (in_memory f) 42 2

bleeds : last_two (net_handle_packet (kernel_handlers quiet) bleeding 42 bob).sent ≡ 5 ∷ 6 ∷ []
unfolding net_handle_packet kernel_handlers swap16
bleeds = refl
