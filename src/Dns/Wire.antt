-- ===== src/Dns/Wire.antt =====
-- src/dns.c: `_dns_read_char`, `_dns_read_short`, `_dns_read_int` and their writers. A pointer is
-- its offset in the packet. Words are in network order, so the byte order of the host and the
-- alignment of the pointer, by which the code chooses between a load and a `memcpy`, do not show.
pub mod Shorts
use smartdns_ui.Prelude.{
  ℕ, ◌+◌, ◌*◌, ◌/◌, ◌%◌, ◌^◌, List, set, get_elem?, length, ltb, get_elem?-IsSome, ◌≤◌, ◌≡◌, arith,
  Outcome, ok, ◌>>=◌, ◌>>◌, access, or_fault,
}

unfoldable pub read_char : List ℕ → ℕ → Outcome (ℕ × ℕ)
read_char packet buffer = do value ← or_fault (get_elem? packet buffer); ok (value, buffer + 1)

unfoldable pub read_short : List ℕ → ℕ → Outcome (ℕ × ℕ)
read_short packet buffer = do
  hi ← or_fault (get_elem? packet buffer)
  lo ← or_fault (get_elem? packet (buffer + 1))
  ok (hi * 256 + lo, buffer + 2)

unfoldable pub read_int : List ℕ → ℕ → Outcome (ℕ × ℕ)
read_int packet buffer = do
  b3 ← or_fault (get_elem? packet buffer)
  b2 ← or_fault (get_elem? packet (buffer + 1))
  b1 ← or_fault (get_elem? packet (buffer + 2))
  b0 ← or_fault (get_elem? packet (buffer + 3))
  ok (((b3 * 256 + b2) * 256 + b1) * 256 + b0, buffer + 4)

-- The stored value is an unsigned char: the parameter's type takes it modulo 256.
unfoldable pub write_char : List ℕ → ℕ → ℕ → Outcome (List ℕ × ℕ)
write_char packet buffer value = do
  access (ltb buffer (length packet))
  ok (set packet buffer (value % 256), buffer + 1)

unfoldable pub write_short : List ℕ → ℕ → ℕ → Outcome (List ℕ × ℕ)
write_short packet buffer value = do
  access (ltb (buffer + 1) (length packet))
  ok (set (set packet buffer (value / 256 % 256)) (buffer + 1) (value % 256), buffer + 2)

unfoldable pub write_int : List ℕ → ℕ → ℕ → Outcome (List ℕ × ℕ)
write_int packet buffer value = do
  access (ltb (buffer + 3) (length packet))
  let high = set (set packet buffer (value / 2 ^ 24 % 256)) (buffer + 1) (value / 2 ^ 16 % 256)
  ok (set (set high (buffer + 2) (value / 2 ^ 8 % 256)) (buffer + 3) (value % 256), buffer + 4)

pub read_short-eq-ok :
    (packet : List ℕ) (p : ℕ)
    → p + 2 ≤ length packet
    → (v : ℕ) × (read_short packet p ≡ ok (v, p + 2))
unfolding read_short
read_short-eq-ok packet p h =
    let (hi, eh) = get_elem?-IsSome packet p (omega arith) in
    let (lo, el) = get_elem?-IsSome packet (p + 1) (omega arith) in (hi * 256 + lo, rw (eh, el))
