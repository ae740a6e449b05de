-- ===== src/Net/Tcp.antt =====
-- src/kernel/tcp.c: connections and their states.
use zoho_os.Prelude.{
  ℕ, zero, suc, ◌+◌, ◌/◌, ◌%◌, Bool, true, false, not, ◌&&◌, List, [], ◌∷◌, Option, none, some,
  ◌==◌, if◌then◌else◌,
}
use zoho_os.Net.{
  Net, Wait, Data, TcpConn, TcpState, closed, syn_sent, established, close_wait, last_ack, word16,
  word32, same_bytes, copies,
}
use zoho_os.Net.Packet.{swap32, tcp_seq, tcp_ack, tcp_flags}
use zoho_os.Net.Arp.{net_tcp_bind}
use zoho_os.Net.Send.{net_send_tcp}

abbrev pub is_closed : TcpState → Bool
is_closed closed = true
is_closed _ = false

-- A connection that an incoming segment belongs to.
abbrev pub belongs : List ℕ → ℕ → ℕ → TcpConn → Bool
belongs src_ip src_port dst_port c =
    not (is_closed c.state)
    && c.local_port == dst_port
    && c.remote_port == src_port
    && same_bytes c.remote_ip src_ip

-- The loops over `connections`: the index of the first one that passes a test.
unfoldable pub find_conn : (TcpConn → Bool) → List TcpConn → Option ℕ
find_conn test [] = none
find_conn test (c ∷ rest) =
    let further = find_conn test rest in
    if test c then some 0 else elim further [ none ↦ none | some i ↦ some (suc i) ]

-- A connection that is in no slot, for an index that no loop gives.
abbrev pub no_conn : TcpConn
no_conn = record {
  remote_ip = [];
  local_port = 0;
  remote_port = 0;
  state = closed;
  seq = 0;
  ack = 0;
  remote_seq = 0;
  remote_ack = 0;
}

abbrev pub conn_in : ℕ → List TcpConn → TcpConn
conn_in i [] = no_conn
conn_in zero (c ∷ rest) = c
conn_in (suc i) (c ∷ rest) = conn_in i rest

abbrev pub set_in : ℕ → TcpConn → List TcpConn → List TcpConn
set_in i c [] = []
set_in zero c (d ∷ rest) = c ∷ rest
set_in (suc i) c (d ∷ rest) = d ∷ set_in i c rest

abbrev pub conn_at : ℕ → Net → TcpConn
conn_at i n = conn_in i n.connections

abbrev pub set_conn : ℕ → TcpConn → Net → Net
set_conn i c n = record n { connections = set_in i c n.connections }

-- The array has 16 entries.
unfoldable pub tcp_init : Net → Net
tcp_init n = record n { connections = copies 16 no_conn }

-- TCP_FLAG_FIN, TCP_FLAG_SYN, TCP_FLAG_RST and TCP_FLAG_ACK, and the test for one.
abbrev pub fin : ℕ
fin = 1

abbrev pub syn : ℕ
syn = 2

abbrev pub rst : ℕ
rst = 4

abbrev pub ack_flag : ℕ
ack_flag = 16

abbrev pub has_flag : ℕ → ℕ → Bool
has_flag flags flag = (flags / flag % 2) == 1

-- A segment without data to the other end of connection `i`.
unfoldable pub reply : Wait → ℕ → List ℕ → ℕ → ℕ → Net → Net
unfolding net_send_tcp
reply w i src_ip src_port flags n =
    let c = conn_at i n in net_send_tcp w src_ip c.local_port src_port c.seq c.ack flags [] n

-- What `tcp_handle_packet` does for connection `i`, by its state.
unfoldable pub handle_state : TcpState → Wait → ℕ → List ℕ → ℕ → ℕ → ℕ → ℕ → Net → Net
unfolding reply
handle_state syn_sent w i src_ip src_port flags seq ack n =
    let c = conn_at i n in
    let opened =
      set_conn i
        (record c {
          state = established;
          remote_seq = word32 (seq + 1);
          ack = word32 (seq + 1);
          remote_ack = ack;
        })
        n in
    if has_flag flags syn && has_flag flags ack_flag
    then reply w i src_ip src_port ack_flag opened
    else n
handle_state established w i src_ip src_port flags seq ack n =
    let c = conn_at i n in
    let waiting = set_conn i (record c { state = close_wait; ack = word32 (seq + 1) }) n in
    let answered =
      reply w i src_ip src_port (fin + ack_flag) (reply w i src_ip src_port ack_flag waiting) in
    let d = conn_at i answered in
    if has_flag flags fin
    then set_conn i (record d { state = last_ack; seq = word32 (d.seq + 1) }) answered
    else n
handle_state last_ack w i src_ip src_port flags seq ack n =
    if has_flag flags ack_flag then set_conn i (record (conn_at i n) { state = closed }) n else n
handle_state _ w i src_ip src_port flags seq ack n = n

-- The segment is at `p` in memory.
unfoldable pub tcp_handle_packet : Wait → List ℕ → ℕ → ℕ → Data → ℕ → Net → Net
unfolding find_conn handle_state net_send_tcp
tcp_handle_packet w src_ip src_port dst_port m p n =
    let flags = tcp_flags m p in
    let seq = swap32 (tcp_seq m p) in
    let ack = swap32 (tcp_ack m p) in
    let rejected =
      net_send_tcp w src_ip dst_port src_port 0 (word32 (seq + 1)) (rst + ack_flag) [] n in
    elim (find_conn (belongs src_ip src_port dst_port) n.connections) [
      | none ↦ if has_flag flags syn then rejected else n
      | some i ↦ handle_state ((conn_at i n).state) w i src_ip src_port flags seq ack n
    ]

-- What `tcp_connect` does in the free slot `i`; `handler` is the address of `tcp_handle_packet`.
unfoldable pub connect_in : Wait → ℕ → ℕ → List ℕ → ℕ → Net → Net
unfolding net_send_tcp
connect_in w handler i ip port n =
    let local = n.next_local_port in
    let c = record (conn_at i n) {
      remote_ip = ip;
      remote_port = port;
      local_port = local;
      state = syn_sent;
      seq = 0x12345678;
      ack = 0;
    } in
    let started = set_conn i c (record n { next_local_port = word16 (local + 1) }) in
    let asked =
      net_send_tcp w ip local port 0x12345678 0 syn [] (net_tcp_bind local handler started) in
    let d = conn_at i asked in set_conn i (record d { seq = word32 (d.seq + 1) }) asked

unfoldable pub tcp_connect : Wait → ℕ → List ℕ → ℕ → Net → Net
unfolding find_conn connect_in
tcp_connect w handler ip port n = elim (find_conn (λ c. is_closed c.state) n.connections) [
  | none ↦ n
  | some i ↦ connect_in w handler i ip port n
]
