-- ===== src/Dns/Domain/Bounds.antt =====
-- `get_domain_from_packet` stays inside of the packet and of the output buffer, and ends.
use smartdns_ui.Prelude.{
  ℕ, zero, suc, ◌+◌, ◌-◌, ◌*◌, ◌≤◌, ◌<◌, ◌≡◌, Bool, true, ◌⊎◌, inl, inr, List, [], ◌∷◌, ◌++◌,
  length, take, drop, length-append, length-take, length-drop, get_elem?-IsSome, arith, Ensures,
  Ensures-bind, ltb, ◌||◌, leb, Bool-cases,
}
use smartdns_ui.Dns.Wire.{read_short-eq-ok}
use smartdns_ui.Dns.Domain.{
  Cursor, Round, break, continue, terminate, follow, put_dot, copy_label, read_label, dispatch,
  round, finish, decode_loop, decode_fuel, start_cursor, get_domain_from_packet,
}

-- The rounds that are left: 34 for each byte of room, and one for each pointer that may follow.
abbrev pub measure : ℕ → Cursor → ℕ
measure size c = 34 * (size - c.output_len) + (34 - c.ptr_jump)

-- the test at the head of the loop
abbrev pub stops : ℕ → ℕ → Cursor → Bool
stops packet_size size c = leb packet_size c.ptr || leb (size - 1) c.output_len || ltb 32 c.ptr_jump

module _ (packet : List ℕ) (packet_size size : ℕ) (inside : packet_size ≤ length packet) where
  -- Either the output pointer is where the stored bytes end, or the next round fails.
  pub record IsSafe (c : Cursor) : Type 0 where
    pub jumps : c.ptr_jump ≤ 33
    pub end_inside : c.is_compressed ≡ true → c.domain_ptr ≤ packet_size
    pub stored : (length c.output ≡ c.output_len) ⊎ (size ≤ c.output_len + 1)

  abbrev pub After : Cursor → Round → Type 0
  After c (break c') =
      (length c'.output < size) × ((finish packet packet_size size c').1 ≤ packet_size)
  After c (continue c') = IsSafe c' × (measure size c' < measure size c)

  module _ (c : Cursor) (s : IsSafe c) (room : c.output_len + 1 < size)
      (jumps : c.ptr_jump ≤ 32) where
    terminate-safe :
        length c.output ≡ c.output_len
        → c.ptr < packet_size
        → Ensures (After c) (terminate packet packet_size size c)
    unfolding terminate finish
    terminate-safe h p = ground (arith, s.end_inside)

    follow-safe : c.ptr < packet_size → Ensures (After c) (follow packet packet_size size c)
    unfolding follow
    follow-safe h = ground (arith, read_short-eq-ok packet c.ptr, s.end_inside)

    read_label-safe :
        (len : ℕ)
        → 0 < len
        → length c.output ≡ c.output_len
        → c.ptr < packet_size
        → Ensures (After c) (read_label packet packet_size size len c)
    unfolding read_label put_dot copy_label
    read_label-safe len pos h p = ground (
      arith,
      length-append c.output (b'.' ∷ []),
      length-append c.output (take len (drop (c.ptr + 1) packet)),
      length-append (c.output ++ b'.' ∷ []) (take len (drop (c.ptr + 1) packet)),
      length-take len (drop (c.ptr + 1) packet),
      length-drop (c.ptr + 1) packet,
      s.end_inside,
    )

    dispatch-safe :
        (len : ℕ)
        → length c.output ≡ c.output_len
        → c.ptr < packet_size
        → Ensures (After c) (dispatch packet packet_size size len c)
    unfolding dispatch
    dispatch-safe len h p = ground (arith, terminate-safe h p, follow-safe p, read_label-safe len)

  pub round-safe : (c : Cursor) → IsSafe c → Ensures (After c) (round packet packet_size size c)
  unfolding round
  round-safe c s = elim (Bool-cases (stops packet_size size c)) [
    | inl e ↦ rw e tt
    | inr e ↦
        let (len, el) = get_elem?-IsSome packet c.ptr (ground arith) in
        rw (e, el)
          (dispatch-safe c s (ground arith) (ground arith) len (ground arith) (ground arith))
  ]

  decode_loop-safe :
      (fuel : ℕ) (c : Cursor)
      → IsSafe c
      → measure size c < fuel
      → Ensures
          (λ r. (length r.0 < size) × (r.1 ≤ packet_size))
          (decode_loop packet packet_size size fuel c)
  unfolding decode_loop
  decode_loop-safe zero c s h = absurd (omega arith)
  decode_loop-safe (suc fuel) c s h =
      Ensures-bind (After c) _ (round packet packet_size size c) _ (round-safe c s) (elim [
        | break c' ↦ λ a. unfold finish in a
        | continue c' ↦ λ a. decode_loop-safe fuel c' a.0 (omega arith)
      ])

-- For every packet whose `packet_size` bytes are there, every start and every size of the output
-- buffer, `_dns_get_domain_from_packet` returns: it reads inside of the packet, writes inside of
-- the buffer, and its loop ends. A name that it returns fits the buffer with the NUL behind it,
-- and the pointer that it leaves is inside of the packet.
pub get_domain_from_packet_safe :
    (packet : List ℕ) (packet_size ptr size : ℕ)
    → packet_size ≤ length packet
    → Ensures
        (λ r. (length r.0 < size) × (r.1 ≤ packet_size))
        (get_domain_from_packet packet packet_size ptr size)
unfolding get_domain_from_packet
get_domain_from_packet_safe packet packet_size ptr size inside =
    decode_loop-safe packet packet_size size inside (decode_fuel size) (start_cursor ptr)
      (ground arith) (omega arith)
