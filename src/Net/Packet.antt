-- ===== src/Net/Packet.antt =====
-- include/kernel/net.h: the order of bytes, and the fields of the packets.
use zoho_os.Prelude.{
  ℕ, ◌+◌, ◌*◌, ◌/◌, ◌%◌, ◌^◌, ◌<◌, ◌≡◌, ap, ◌∙◌, bit_or, List, [], ◌∷◌, ◌++◌, arith,
}
use zoho_os.Bits.Fields.{bit_or-add}
use zoho_os.Net.{Data, bytes_at}

-- `swap16`, which is htons and ntohs, and `swap32`, which is htonl and ntohl.
unfoldable pub swap16 : ℕ → ℕ
swap16 x = bit_or (x % 2 ^ 8 * 2 ^ 8) (x / 2 ^ 8 % 2 ^ 8)

unfoldable pub swap32 : ℕ → ℕ
swap32 x =
    bit_or
      (bit_or (bit_or (x % 2 ^ 8 * 2 ^ 24) (x / 2 ^ 8 % 2 ^ 8 * 2 ^ 16))
        (x / 2 ^ 16 % 2 ^ 8 * 2 ^ 8))
      (x / 2 ^ 24 % 2 ^ 8)

-- A number in memory, its lowest byte first.
abbrev pub load16 : Data → ℕ → ℕ
load16 m a = m a + m (a + 1) * 2 ^ 8

abbrev pub load32 : Data → ℕ → ℕ
load32 m a = load16 m a + load16 m (a + 2) * 2 ^ 16

abbrev pub store16 : ℕ → List ℕ
store16 x = (x % 2 ^ 8) ∷ (x / 2 ^ 8 % 2 ^ 8) ∷ []

abbrev pub store32 : ℕ → List ℕ
store32 x = store16 x ++ store16 (x / 2 ^ 16)

-- `eth_header_t` at a pointer: its type and the address of its sender.
abbrev pub eth_type : Data → ℕ → ℕ
eth_type m p = load16 m (p + 12)

abbrev pub eth_src : Data → ℕ → List ℕ
eth_src m p = bytes_at m (p + 6) 6

-- `arp_packet_t`
abbrev pub arp_htype : Data → ℕ → ℕ
arp_htype m p = load16 m p

abbrev pub arp_ptype : Data → ℕ → ℕ
arp_ptype m p = load16 m (p + 2)

abbrev pub arp_oper : Data → ℕ → ℕ
arp_oper m p = load16 m (p + 6)

abbrev pub arp_src_mac : Data → ℕ → List ℕ
arp_src_mac m p = bytes_at m (p + 8) 6

abbrev pub arp_src_ip : Data → ℕ → List ℕ
arp_src_ip m p = bytes_at m (p + 14) 4

abbrev pub arp_dst_ip : Data → ℕ → List ℕ
arp_dst_ip m p = bytes_at m (p + 24) 4

-- `ipv4_packet_t`
abbrev pub ip_header_len : Data → ℕ → ℕ
ip_header_len m p = m p % 2 ^ 4 * 4

abbrev pub ip_len : Data → ℕ → ℕ
ip_len m p = load16 m (p + 2)

abbrev pub ip_proto : Data → ℕ → ℕ
ip_proto m p = m (p + 9)

abbrev pub ip_src : Data → ℕ → List ℕ
ip_src m p = bytes_at m (p + 12) 4

abbrev pub ip_dst : Data → ℕ → List ℕ
ip_dst m p = bytes_at m (p + 16) 4

-- `tcp_packet_t` and `udp_packet_t`, which begin with the two ports
abbrev pub src_port : Data → ℕ → ℕ
src_port m p = load16 m p

abbrev pub dst_port : Data → ℕ → ℕ
dst_port m p = load16 m (p + 2)

abbrev pub udp_length : Data → ℕ → ℕ
udp_length m p = load16 m (p + 4)

abbrev pub tcp_seq : Data → ℕ → ℕ
tcp_seq m p = load32 m (p + 4)

abbrev pub tcp_ack : Data → ℕ → ℕ
tcp_ack m p = load32 m (p + 8)

abbrev pub tcp_header_len : Data → ℕ → ℕ
tcp_header_len m p = m (p + 12) / 2 ^ 4 * 4

abbrev pub tcp_flags : Data → ℕ → ℕ
tcp_flags m p = m (p + 13)

pub swap16_eq : (x : ℕ) → swap16 x ≡ x % 2 ^ 8 * 2 ^ 8 + x / 2 ^ 8 % 2 ^ 8
unfolding swap16
swap16_eq x = bit_or-add 8 (x % 2 ^ 8) (x / 2 ^ 8 % 2 ^ 8) (omega arith)

-- Swapping twice gives back a number of 16 bits.
pub swap16-swap16 : (x : ℕ) → x < 2 ^ 16 → swap16 (swap16 x) ≡ x
swap16-swap16 x h = omega (arith, swap16_eq x, swap16_eq (swap16 x))

swap32_eq :
    (x : ℕ)
    → swap32 x
      ≡ x % 2 ^ 8 * 2 ^ 24
        + x / 2 ^ 8 % 2 ^ 8 * 2 ^ 16
        + x / 2 ^ 16 % 2 ^ 8 * 2 ^ 8
        + x / 2 ^ 24 % 2 ^ 8
unfolding swap32
swap32_eq x =
    ap (λ (y : ℕ). bit_or (bit_or y c) d)
      (bit_or-add 24 (x % 2 ^ 8) (x / 2 ^ 8 % 2 ^ 8 * 2 ^ 16) (omega arith))
    ∙ ap (λ (y : ℕ). bit_or y d)
        (ap (λ (y : ℕ). bit_or y c) (omega arith)
          ∙ bit_or-add 16 (x % 2 ^ 8 * 2 ^ 8 + x / 2 ^ 8 % 2 ^ 8) c (omega arith))
    ∙ ap (λ (y : ℕ). bit_or y d) (omega arith)
    ∙ bit_or-add 8 ((x % 2 ^ 8 * 2 ^ 8 + x / 2 ^ 8 % 2 ^ 8) * 2 ^ 8 + x / 2 ^ 16 % 2 ^ 8) d
        (omega arith)
    ∙ omega arith
  where
    c : ℕ
    c = x / 2 ^ 16 % 2 ^ 8 * 2 ^ 8

    d : ℕ
    d = x / 2 ^ 24 % 2 ^ 8

pub swap32-swap32 : (x : ℕ) → x < 2 ^ 32 → swap32 (swap32 x) ≡ x
swap32-swap32 x h = omega (arith, swap32_eq x, swap32_eq (swap32 x))

-- A number is read as it was written.
pub load16-store16 : (m : Data) (a x : ℕ) → bytes_at m a 2 ≡ store16 x → x < 2 ^ 16 → load16 m a ≡ x
load16-store16 m a x e h = ground (arith, e, h)
