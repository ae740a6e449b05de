-- ===== src/Net/Connect.antt =====
-- src/kernel/tcp.c: what `tcp_connect` starts, when the other machine's address is known.
use zoho_os.Prelude.{ℕ, ◌+◌, ◌≡◌, ◌≢◌, true, List, [], ◌∷◌, ◌++◌, none, some}
use zoho_os.Net.{Net, TcpConn, syn_sent, word16, word32}
use zoho_os.Net.Arp.{bind_in, find_handler, has_free}
use zoho_os.Net.Tcp.{set_in, conn_at, set_conn, syn}
use zoho_os.Net.Known.{tcp_frame}

-- The connection that waits for the answer to its SYN.
abbrev pub waiting : ℕ → List ℕ → ℕ → Net → TcpConn
waiting i ip port n = record (conn_at i n) {
  remote_ip = ip;
  remote_port = port;
  local_port = n.next_local_port;
  state = syn_sent;
  seq = 0x12345679;
  ack = 0;
}

-- What a call has done: one connection waits, one segment is sent, and segments for its port come to
-- the handler, if there was room to bind it.
pub record Started (handler i : ℕ) (mac ip : List ℕ) (port : ℕ) (n n' : Net) : Type 0 where
  pub connections : n'.connections ≡ set_in i (waiting i ip port n) n.connections
  pub sent : n'.sent ≡ n.sent ++ tcp_frame mac ip n.next_local_port port 0x12345678 0 syn n ∷ []
  pub handled :
      has_free n.tcp_bindings ≡ true
      → find_handler n.tcp_bindings n.next_local_port ≡ none
      → find_handler n'.tcp_bindings n.next_local_port ≡ some handler
  pub others :
      (other : ℕ)
      → other ≢ n.next_local_port
      → find_handler n'.tcp_bindings other ≡ find_handler n.tcp_bindings other
  pub next : n'.next_local_port ≡ word16 (n.next_local_port + 1)
  pub cached : n'.arp_cache ≡ n.arp_cache

-- The machine before the segment goes out.
abbrev prepared : ℕ → ℕ → List ℕ → ℕ → Net → Net
prepared handler i ip port n = record n {
  connections = set_in i (record (waiting i ip port n) { seq = 0x12345678 }) n.connections;
  next_local_port = word16 (n.next_local_port + 1);
  tcp_bindings = bind_in n.tcp_bindings n.next_local_port handler;
}

abbrev counted : ℕ → Net → Net
counted i n = let d = conn_at i n in set_conn i (record d { seq = word32 (d.seq + 1) }) n
