-- ===== src/Net/Segments.antt =====
-- src/kernel/tcp.c: how a segment moves a connection, when the other machine's address is known.
use zoho_os.Prelude.{ℕ, ◌+◌, ◌≡◌, Bool, true, false, ◌&&◌, List, [], ◌∷◌, ◌++◌}
use zoho_os.Net.{Net, TcpConn, TcpState, closed, syn_sent, established, last_ack, word32}
use zoho_os.Net.Tcp.{set_in, conn_at, fin, syn, ack_flag, has_flag}
use zoho_os.Net.Known.{tcp_frame}

-- Whether a segment with these flags moves a connection in a state.
abbrev pub moves : TcpState → ℕ → Bool
moves syn_sent flags = has_flag flags syn && has_flag flags ack_flag
moves established flags = has_flag flags fin
moves last_ack flags = has_flag flags ack_flag
moves _ flags = false

-- How a segment from a machine moves a connection `c`, and the frames that answer it.
pub data Advanced (mac src_ip : List ℕ) (src_port flags seq ack : ℕ) (n : Net) (c d : TcpConn)
    (answers : List (List ℕ)) : Type 0 where
  kept :
      moves c.state flags ≡ false
      → d ≡ c
      → answers ≡ []
      → Advanced mac src_ip src_port flags seq ack n c d answers
  opened :
      c.state ≡ syn_sent
      → has_flag flags syn ≡ true
      → has_flag flags ack_flag ≡ true
      → d ≡ record c {
        state = established;
        remote_seq = word32 (seq + 1);
        ack = word32 (seq + 1);
        remote_ack = ack;
      }
      → answers
        ≡ tcp_frame mac src_ip c.local_port src_port c.seq (word32 (seq + 1)) ack_flag n ∷ []
      → Advanced mac src_ip src_port flags seq ack n c d answers
  left :
      c.state ≡ established
      → has_flag flags fin ≡ true
      → d ≡ record c { state = last_ack; ack = word32 (seq + 1); seq = word32 (c.seq + 1) }
      → answers
        ≡ tcp_frame mac src_ip c.local_port src_port c.seq (word32 (seq + 1)) ack_flag n
          ∷ tcp_frame mac src_ip c.local_port src_port c.seq (word32 (seq + 1)) (fin + ack_flag) n
          ∷ []
      → Advanced mac src_ip src_port flags seq ack n c d answers
  ended :
      c.state ≡ last_ack
      → has_flag flags ack_flag ≡ true
      → d ≡ record c { state = closed }
      → answers ≡ []
      → Advanced mac src_ip src_port flags seq ack n c d answers

-- The effect of a segment on connection `i`: no other connection changes, and only answers are sent.
pub record Effect (mac src_ip : List ℕ) (src_port i flags seq ack : ℕ) (n n' : Net) : Type 0 where
  pub conn : TcpConn
  pub answers : List (List ℕ)
  pub advanced : Advanced mac src_ip src_port flags seq ack n (conn_at i n) conn answers
  pub connections : n'.connections ≡ set_in i conn n.connections
  pub sent : n'.sent ≡ n.sent ++ answers
