-- ===== src/Dns/Domain.antt =====
-- src/dns.c: `_dns_get_domain_from_packet`, which reads a name with its compression pointers.
-- A pointer into the packet is its offset. `output` holds the bytes stored through the output
-- pointer, and `output_len` is how far that pointer has moved.
pub mod Bounds
pub mod Sound
use smartdns_ui.Prelude.{
  ℕ, zero, suc, ◌+◌, ◌-◌, ◌*◌, ◌%◌, Bool, true, false, ◌||◌, List, [], ◌∷◌, ◌++◌, length, take,
  drop, get_elem?, ltb, leb, ◌==◌, if◌then◌else◌, Outcome, ok, fail, stuck, ◌>>=◌, ◌>>◌, fail_if,
  access, or_fault,
}
use smartdns_ui.Dns.Wire.{read_short}

pub record Cursor : Type 0 where
  pub ptr : ℕ
  pub domain_ptr : ℕ
  pub is_compressed : Bool
  pub ptr_jump : ℕ
  pub output : List ℕ
  pub output_len : ℕ

-- One round of the `while (1)`: it breaks out with the final state, or goes on.
pub data Round : Type 0 where
  break : Cursor → Round
  continue : Cursor → Round

module _ (packet : List ℕ) (packet_size size : ℕ) where
  -- the branch `len == 0`
  pub terminate : Cursor → Outcome Round
  terminate c = do access (ltb c.output_len size); ok (break (record c { ptr = c.ptr + 1 }))

  -- the branch `len >= 0xC0`
  pub follow : Cursor → Outcome Round
  follow c = do
    fail_if (ltb packet_size (c.ptr + 2))
    (short, next) ← read_short packet c.ptr
    let offset = short % 0x4000
    fail_if (ltb packet_size offset)
    ok (
        continue (record c {
          ptr = offset;
          domain_ptr = if c.is_compressed then c.domain_ptr else next;
          is_compressed = true;
          ptr_jump = c.ptr_jump + 1;
        }))

  -- `if (output_len > 0) { *output = '.'; ... }`
  pub put_dot : Cursor → Outcome Cursor
  put_dot c =
      if ltb 0 c.output_len
      then (do
        access (ltb c.output_len size)
        ok (record c { output = c.output ++ b'.' ∷ []; output_len = c.output_len + 1 }))
      else ok c

  -- `if (output_len < size - 1) { ... memcpy(output, ptr, copy_len); }`, at the label's first byte
  pub copy_label : ℕ → Cursor → Outcome Cursor
  copy_label len c =
      if ltb c.output_len (size - 1)
      then (do
        let copy_len = if ltb len (size - c.output_len) then len else size - 1 - c.output_len
        fail_if (ltb packet_size (c.ptr + copy_len))
        access (leb (c.ptr + copy_len) (length packet))
        access (leb (c.output_len + copy_len) size)
        ok (record c { output = c.output ++ take copy_len (drop c.ptr packet) }))
      else ok c

  -- the rest of the body: a label of `len` bytes
  pub read_label : ℕ → Cursor → Outcome Round
  read_label len c = do
    c₁ ← put_dot (record c { ptr_jump = 0 })
    fail_if (ltb packet_size c₁.ptr)
    c₂ ← copy_label len (record c₁ { ptr = c₁.ptr + 1 })
    ok (continue (record c₂ { ptr = c₂.ptr + len; output_len = c₂.output_len + len }))

  pub dispatch : ℕ → Cursor → Outcome Round
  dispatch len c =
      if len == 0 then terminate c else if leb 0xC0 len then follow c else read_label len c

  pub round : Cursor → Outcome Round
  round c = do
    fail_if (leb packet_size c.ptr || leb (size - 1) c.output_len || ltb 32 c.ptr_jump)
    len ← or_fault (get_elem? packet c.ptr)
    dispatch len c

  pub finish : Cursor → List ℕ × ℕ
  finish c = (c.output, if c.is_compressed then c.domain_ptr else c.ptr)

  pub decode_loop : ℕ → Cursor → Outcome (List ℕ × ℕ)
  decode_loop zero c = stuck
  decode_loop (suc fuel) c =
      round c >>= elim [ break c' ↦ ok (finish c') | continue c' ↦ decode_loop fuel c' ]

-- At most 33 pointers stand in a row, and each label moves the output on.
abbrev pub decode_fuel : ℕ → ℕ
decode_fuel size = 34 * size + 35

abbrev pub start_cursor : ℕ → Cursor
start_cursor ptr = record {
  ptr = ptr;
  domain_ptr = ptr;
  is_compressed = false;
  ptr_jump = 0;
  output = [];
  output_len = 0;
}

-- The name in front of its terminating NUL, and the pointer behind the name in the packet.
unfoldable pub get_domain_from_packet : List ℕ → ℕ → ℕ → ℕ → Outcome (List ℕ × ℕ)
unfolding read_short terminate follow put_dot copy_label read_label dispatch round finish
    decode_loop
get_domain_from_packet packet packet_size ptr size =
    decode_loop packet packet_size size (decode_fuel size) (start_cursor ptr)
