-- ===== src/Net/Arp.antt =====
-- src/kernel/net.c: the cache of addresses, and the tables of ports.
use zoho_os.Prelude.{
  ℕ, ◌≡◌, ◌≢◌, refl, ap, Bool, true, false, not, ◌&&◌, ◌||◌, List, [], ◌∷◌, Option, none, some,
  arith, ◌==◌, Bool-cases, inl, inr, if◌then◌else◌, length,
}
use zoho_os.Net.{ArpEntry, Binding, Net, same_bytes}

-- The loop of `net_handle_arp`: the first entry that is free or has the address is written.
unfoldable pub update_cache : List ArpEntry → List ℕ → List ℕ → List ArpEntry
update_cache [] ip mac = []
update_cache (e ∷ rest) ip mac =
    let further = update_cache rest ip mac in
    if not e.valid || same_bytes e.ip ip
    then (record { ip = ip; mac = mac; valid = true }) ∷ rest
    else e ∷ further

-- The loop that `net_send_tcp`, `net_send_udp` and `net_ping` run over the cache.
unfoldable pub find_mac : List ArpEntry → List ℕ → Option (List ℕ)
find_mac [] ip = none
find_mac (e ∷ rest) ip =
    let further = find_mac rest ip in if e.valid && same_bytes e.ip ip then some e.mac else further

-- The loops of `net_udp_bind` and `net_tcp_bind`, which have the same text.
unfoldable pub bind_in : List Binding → ℕ → ℕ → List Binding
bind_in [] port handler = []
bind_in (b ∷ rest) port handler =
    let further = bind_in rest port handler in
    if not b.valid
    then (record { port = port; handler = handler; valid = true }) ∷ rest
    else b ∷ further

unfoldable pub net_udp_bind : ℕ → ℕ → Net → Net
unfolding bind_in
net_udp_bind port handler n = record n { udp_bindings = bind_in n.udp_bindings port handler }

unfoldable pub net_tcp_bind : ℕ → ℕ → Net → Net
unfolding bind_in
net_tcp_bind port handler n = record n { tcp_bindings = bind_in n.tcp_bindings port handler }

-- The loops over the bindings of `net_handle_udp` and `net_handle_tcp`: the first one for a port.
unfoldable pub find_handler : List Binding → ℕ → Option ℕ
find_handler [] port = none
find_handler (b ∷ rest) port =
    let further = find_handler rest port in
    if b.valid && b.port == port then some b.handler else further

pub same_bytes-eq : (a b : List ℕ) → same_bytes a b ≡ true → a ≡ b
same_bytes-eq [] [] h = refl
same_bytes-eq [] (b ∷ bs) h = cc
same_bytes-eq (a ∷ rest) [] h = cc
same_bytes-eq (a ∷ rest) (b ∷ bs) h = ground (arith, h, same_bytes-eq rest bs)

pub same_bytes_refl : (a : List ℕ) → same_bytes a a ≡ true
same_bytes_refl [] = refl
same_bytes_refl (a ∷ rest) = ground (arith, same_bytes_refl rest)

-- An entry is free, or has the address.
abbrev pub has_slot : List ArpEntry → List ℕ → Bool
has_slot [] ip = false
has_slot (e ∷ rest) ip = not e.valid || same_bytes e.ip ip || has_slot rest ip

-- After an update the cache knows the address, if there was a place for it, and knows of every other
-- address what it knew; its size is the same.
pub find_mac-update_cache :
    (cache : List ArpEntry) (ip mac other : List ℕ)
    → find_mac (update_cache cache ip mac) other ≡ (
        if same_bytes ip other
        then (if has_slot cache ip then some mac else none)
        else find_mac cache other)
unfolding find_mac update_cache
find_mac-update_cache [] ip mac other = ground arith
find_mac-update_cache (e ∷ rest) ip mac other = elim (Bool-cases (same_bytes e.ip ip)) [
  | inl h ↦ let eq = same_bytes-eq e.ip ip h in ground (arith, h, ap (λ x. same_bytes x other) eq)
  | inr h ↦ elim (Bool-cases (same_bytes ip other)) [
    | inl g ↦
        let eq = same_bytes-eq ip other g in
        ground
          (arith, h, g, ap (λ x. same_bytes e.ip x) eq, find_mac-update_cache rest ip mac other)
    | inr g ↦ ground (arith, h, g, find_mac-update_cache rest ip mac other)
  ]
]

pub length-update_cache :
    (cache : List ArpEntry) (ip mac : List ℕ) → length (update_cache cache ip mac) ≡ length cache
unfolding update_cache
length-update_cache [] ip mac = refl
length-update_cache (e ∷ rest) ip mac = ground (arith, length-update_cache rest ip mac)

abbrev pub has_free : List Binding → Bool
has_free [] = false
has_free (b ∷ rest) = not b.valid || has_free rest

-- A port that no binding has gets its handler if a binding is free, and every other port keeps its own.
pub find_handler-bind_in :
    (bs : List Binding) (port handler : ℕ)
    → (has_free bs ≡ true
        → find_handler bs port ≡ none
        → find_handler (bind_in bs port handler) port ≡ some handler)
      × ((other : ℕ)
          → other ≢ port
          → find_handler (bind_in bs port handler) other ≡ find_handler bs other)
unfolding find_handler bind_in
find_handler-bind_in [] port handler = ((λ h g. ground (arith, h)), λ other ne. refl)
find_handler-bind_in (b ∷ rest) port handler =
    let (bound, kept) = find_handler-bind_in rest port handler in
    ((λ h g. ground (arith, h, g, bound)), λ other ne. ground (arith, ne, kept other ne))
