-- ===== src/Net/Known.antt =====
-- src/kernel/tcp.c, src/kernel/net.c: connections in their slots, and segments to a machine whose address
-- is known.
use zoho_os.Prelude.{
  ℕ, zero, suc, ◌+◌, ◌%◌, ◌^◌, ◌<◌, ◌≡◌, refl, sym, ap, ◌∙◌, ◌≢◌, false, Bool, true, List, [], ◌∷◌,
  ◌++◌, take, length, Option, none, some, Option-cases, Bool-cases, inl, inr, arith,
}
use zoho_os.Net.{
  Net, Wait, TcpConn, TcpState, closed, listen, syn_sent, syn_received, established, fin_wait_1,
  fin_wait_2, close_wait, closing, last_ack, time_wait, same_bytes,
}
use zoho_os.Net.Arp.{find_mac, same_bytes_refl, same_bytes-eq}
use zoho_os.Net.Send.{
  frame, ip_header, tcp_segment, net_send_eth, net_send_ipv4, send_tcp_to, resolve, wait_for_mac,
  net_send_arp_request, net_send_tcp,
}
use zoho_os.Net.Tcp.{is_closed, belongs, find_conn, conn_in, set_in}

-- The machine when a frame more is sent.
abbrev pub sent_one : List ℕ → Net → Net
sent_one f n = record n {
  sent = n.sent ++ f ∷ [];
  tx_packet_count = (n.tx_packet_count + 1) % 2 ^ 64;
}

-- The frame of a segment without data.
unfoldable pub tcp_frame : List ℕ → List ℕ → ℕ → ℕ → ℕ → ℕ → ℕ → Net → List ℕ
unfolding frame ip_header tcp_segment
tcp_frame mac target_ip src_port dst_port seq ack flags n =
    frame mac 0x0800
      (take 40 (
        ip_header 6 40 n.my_ip target_ip
        ++ take 20 (tcp_segment n.my_ip target_ip src_port dst_port seq ack flags [])))
      n

pub set_in-conn_in : (i : ℕ) (cs : List TcpConn) → set_in i (conn_in i cs) cs ≡ cs
set_in-conn_in i [] = refl
set_in-conn_in zero (c ∷ rest) = refl
set_in-conn_in (suc i) (c ∷ rest) = ap (λ r. c ∷ r) (set_in-conn_in i rest)

pub conn_in-set_in :
    (i : ℕ) (c : TcpConn) (cs : List TcpConn) → i < length cs → conn_in i (set_in i c cs) ≡ c
conn_in-set_in i c [] h = absurd (omega arith)
conn_in-set_in zero c (d ∷ rest) h = refl
conn_in-set_in (suc i) c (d ∷ rest) h = conn_in-set_in i c rest (omega arith)

pub set_in-set_in :
    (i : ℕ) (c d : TcpConn) (cs : List TcpConn) → set_in i c (set_in i d cs) ≡ set_in i c cs
set_in-set_in i c d [] = refl
set_in-set_in zero c d (e ∷ rest) = refl
set_in-set_in (suc i) c d (e ∷ rest) = ap (λ r. e ∷ r) (set_in-set_in i c d rest)

-- A connection that is found has a slot, passes the test, and is the first that does.
pub find_conn-some :
    (test : TcpConn → Bool) (cs : List TcpConn) (i : ℕ)
    → find_conn test cs ≡ some i
    → (i < length cs) × (test (conn_in i cs) ≡ true)
unfolding find_conn
find_conn-some test [] i h = absurd (ground (arith, h))
find_conn-some test (c ∷ rest) zero h = elim (Bool-cases (test c)) [
  | inl t ↦ (omega arith, t)
  | inr t ↦ elim (Option-cases (find_conn test rest)) [
    | inl e ↦ absurd (ground (arith, h, t, e))
    | inr (j, e) ↦ absurd (ground (arith, h, t, e))
  ]
]
find_conn-some test (c ∷ rest) (suc i) h = elim (Bool-cases (test c)) [
  | inl t ↦ absurd (ground (arith, h, t))
  | inr t ↦ elim (Option-cases (find_conn test rest)) [
    | inl e ↦ absurd (ground (arith, h, t, e))
    | inr (j, e) ↦
        let ej : j ≡ i = ground (arith, h, t, e) in
        let further = find_conn-some test rest i (e ∙ ap some ej) in
        (omega (arith, further.0), further.1)
  ]
]

pub resolve_known :
    (w : Wait) (mac target_ip : List ℕ) (n : Net)
    → find_mac n.arp_cache target_ip ≡ some mac
    → resolve w target_ip n ≡ (some mac, n)
unfolding resolve
resolve_known w mac target_ip n h =
    ap
      (λ (o : Option (List ℕ)). elim o as (λ x. Option (List ℕ) × Net) [
        | none ↦ wait_for_mac w.rounds w.e1000_poll target_ip (net_send_arp_request target_ip n)
        | some m ↦ (some m, n)
      ])
      h

send_tcp_frame :
    (mac target_ip : List ℕ) (src_port dst_port seq ack flags : ℕ) (n : Net)
    → send_tcp_to mac target_ip src_port dst_port seq ack flags [] n
      ≡ sent_one (tcp_frame mac target_ip src_port dst_port seq ack flags n) n
unfolding send_tcp_to net_send_ipv4 net_send_eth tcp_frame
send_tcp_frame mac target_ip src_port dst_port seq ack flags n = refl

-- Where the address is known, a segment is sent at once.
pub send_known :
    (w : Wait) (mac target_ip : List ℕ) (src_port dst_port seq ack flags : ℕ) (n : Net)
    → find_mac n.arp_cache target_ip ≡ some mac
    → net_send_tcp w target_ip src_port dst_port seq ack flags [] n
      ≡ sent_one (tcp_frame mac target_ip src_port dst_port seq ack flags n) n
unfolding net_send_tcp
send_known w mac target_ip src_port dst_port seq ack flags n h =
    ap
      (λ (r : Option (List ℕ) × Net). elim r.0 as (λ x. Net) [
        | none ↦ r.1
        | some m ↦ send_tcp_to m target_ip src_port dst_port seq ack flags [] r.1
      ])
      (resolve_known w mac target_ip n h)
    ∙ send_tcp_frame mac target_ip src_port dst_port seq ack flags n

-- The first connection with a property.
pub record IsFirst (P : TcpConn → Type 0) (cs : List TcpConn) (i : ℕ) : Type 0 where
  pub inside : i < length cs
  pub holds : P (conn_in i cs)
  pub earlier : (j : ℕ) → j < i → P (conn_in j cs) → ⊥

-- A walk whose test decides a property finds the first connection that has it.
pub find_conn-IsFirst :
    (P : TcpConn → Type 0) (test : TcpConn → Bool)
    → ((c : TcpConn) → P c → test c ≡ true)
    → ((c : TcpConn) → test c ≡ true → P c)
    → (cs : List TcpConn) (i : ℕ) → IsFirst P cs i
    → find_conn test cs ≡ some i
unfolding find_conn
find_conn-IsFirst P test passes only [] i f = absurd (omega (arith, f.inside))
find_conn-IsFirst P test passes only (c ∷ rest) zero f = rw (passes c f.holds) refl
find_conn-IsFirst P test passes only (c ∷ rest) (suc i) f = elim (Bool-cases (test c)) [
  | inl t ↦ absurd (f.earlier 0 (omega arith) (only c t))
  | inr t ↦
      let further = find_conn-IsFirst P test passes only rest i (record {
        inside = omega (arith, f.inside);
        holds = f.holds;
        earlier = λ j h. f.earlier (suc j) (omega arith);
      }) in
      rw t (rw further refl)
]

abbrev pub IsClosed : TcpConn → Type 0
IsClosed c = c.state ≡ closed

-- A connection that a segment from a port of a machine to a local port is for.
pub record IsFor (src_ip : List ℕ) (src_port dst_port : ℕ) (c : TcpConn) : Type 0 where
  pub in_use : c.state ≢ closed
  pub local_port : c.local_port ≡ dst_port
  pub remote_port : c.remote_port ≡ src_port
  pub remote_ip : c.remote_ip ≡ src_ip

is_closed-eq : (st : TcpState) → is_closed st ≡ true → st ≡ closed
is_closed-eq closed h = refl
is_closed-eq listen h = cc
is_closed-eq syn_sent h = cc
is_closed-eq syn_received h = cc
is_closed-eq established h = cc
is_closed-eq fin_wait_1 h = cc
is_closed-eq fin_wait_2 h = cc
is_closed-eq close_wait h = cc
is_closed-eq closing h = cc
is_closed-eq last_ack h = cc
is_closed-eq time_wait h = cc

pub find_closed :
    (cs : List TcpConn) (i : ℕ)
    → IsFirst IsClosed cs i
    → find_conn (λ c. is_closed c.state) cs ≡ some i
find_closed cs i f =
    find_conn-IsFirst IsClosed (λ c. is_closed c.state) (λ c h. ap is_closed h)
      (λ c h. is_closed-eq c.state h) cs i f

belongs_passes :
    (src_ip : List ℕ) (src_port dst_port : ℕ) (c : TcpConn)
    → IsFor src_ip src_port dst_port c
    → belongs src_ip src_port dst_port c ≡ true
belongs_passes src_ip src_port dst_port c f = elim (Bool-cases (is_closed c.state)) [
  | inl t ↦ absurd (f.in_use (is_closed-eq c.state t))
  | inr t ↦
      let ip : same_bytes c.remote_ip src_ip ≡ true =
        ap (λ x. same_bytes x src_ip) f.remote_ip ∙ same_bytes_refl src_ip in
      ground (arith, t, ip, f.local_port, f.remote_port)
]

belongs_only :
    (src_ip : List ℕ) (src_port dst_port : ℕ) (c : TcpConn)
    → belongs src_ip src_port dst_port c ≡ true
    → IsFor src_ip src_port dst_port c
belongs_only src_ip src_port dst_port c h =
    let open' : is_closed c.state ≡ false = ground (arith, h) in
    let ip : same_bytes c.remote_ip src_ip ≡ true = ground (arith, h) in
    record {
      in_use = λ e. true_not_false (sym (ap is_closed e) ∙ open');
      local_port = ground (arith, h);
      remote_port = ground (arith, h);
      remote_ip = same_bytes-eq c.remote_ip src_ip ip;
    }
  where
    true_not_false : true ≡ false → ⊥
    true_not_false e = cc

pub find_for :
    (src_ip : List ℕ) (src_port dst_port : ℕ) (cs : List TcpConn) (i : ℕ)
    → IsFirst (IsFor src_ip src_port dst_port) cs i
    → find_conn (belongs src_ip src_port dst_port) cs ≡ some i
find_for src_ip src_port dst_port cs i f =
    find_conn-IsFirst (IsFor src_ip src_port dst_port) (belongs src_ip src_port dst_port)
      (belongs_passes src_ip src_port dst_port) (belongs_only src_ip src_port dst_port) cs i f
