-- ===== src/Net.antt =====
-- src/kernel/net.c, src/kernel/tcp.c, src/kernel/dhcp.c: the network stack.
-- All static variables of the three files are one record, because a packet that is handled while
-- another is sent can change any of them. A packet that arrives is bytes in memory, from a pointer on,
-- of which `len` are its own; a packet that is sent is a list of bytes. kmalloc is taken to succeed.
pub mod Packet
pub mod Checksum
pub mod Arp
pub mod Send
pub mod Tcp
pub mod Dhcp
pub mod Receive
pub mod Exchange
pub mod Known
pub mod Segments
pub mod Connect
pub mod Bounds
pub mod Echo
mod Tests
use zoho_os.Prelude.{
  ℕ, zero, suc, ◌+◌, ◌*◌, ◌/◌, ◌%◌, ◌^◌, Bool, true, false, not, ◌&&◌, ◌||◌, List, [], ◌∷◌, ◌++◌,
  Option, none, some, arith, ◌==◌, bit_or, if◌then◌else◌,
}

-- `arp_entry_t`
pub record ArpEntry : Type 0 where
  pub ip : List ℕ
  pub mac : List ℕ
  pub valid : Bool

-- `udp_binding_t` and `tcp_binding_t`; a handler is known by its address.
pub record Binding : Type 0 where
  pub port : ℕ
  pub handler : ℕ
  pub valid : Bool

-- `tcp_state_t`
pub data TcpState : Type 0 where
  closed listen syn_sent syn_received established fin_wait_1 fin_wait_2 close_wait closing last_ack
        time_wait :
      TcpState

-- `tcp_conn_t`
pub record TcpConn : Type 0 where
  pub remote_ip : List ℕ
  pub local_port : ℕ
  pub remote_port : ℕ
  pub state : TcpState
  pub seq : ℕ
  pub ack : ℕ
  pub remote_seq : ℕ
  pub remote_ack : ℕ

-- The static variables, the arrays as lists, the address of the card that `e1000_get_mac` gives, and
-- the frames given to `e1000_send_packet`, the last one last.
pub record Net : Type 0 where
  pub rx_packet_count : ℕ
  pub tx_packet_count : ℕ
  pub my_ip : List ℕ
  pub my_mac : List ℕ
  pub mac_addr : List ℕ
  pub arp_cache : List ArpEntry
  pub udp_bindings : List Binding
  pub tcp_bindings : List Binding
  pub connections : List TcpConn
  pub next_local_port : ℕ
  pub dhcp_offered_ip : List ℕ
  pub dhcp_server_ip : List ℕ
  pub sent : List (List ℕ)

-- What a wait for the answer to an ARP request meets: the timer lets `rounds` rounds of the loop pass,
-- and each polls the card, which can bring packets.
pub record Wait : Type 0 where
  pub rounds : ℕ
  pub e1000_poll : Net → Net

abbrev pub Data : Type 0
Data = ℕ → ℕ

abbrev pub word16 : ℕ → ℕ
word16 n = n % 2 ^ 16

abbrev pub word32 : ℕ → ℕ
word32 n = n % 2 ^ 32

-- `memcmp(a, b, n) == 0`, for lists of n bytes
abbrev pub same_bytes : List ℕ → List ℕ → Bool
same_bytes [] [] = true
same_bytes [] (b ∷ bs) = false
same_bytes (a ∷ rest) [] = false
same_bytes (a ∷ rest) (b ∷ bs) = (a == b) && same_bytes rest bs

-- `n` bytes from `at` on
abbrev pub bytes_at : Data → ℕ → ℕ → List ℕ
bytes_at m at' zero = []
bytes_at m at' (suc n) = m at' ∷ bytes_at m (at' + 1) n

abbrev pub zeros : ℕ → List ℕ
zeros zero = []
zeros (suc n) = 0 ∷ zeros n

abbrev pub copies : {A : Type 0} → ℕ → A → List A
copies zero a = []
copies (suc n) a = a ∷ copies n a

-- Where a list of bytes arrives: at address 0.
abbrev pub in_memory : List ℕ → Data
in_memory [] i = 0
in_memory (x ∷ rest) zero = x
in_memory (x ∷ rest) (suc i) = in_memory rest i
