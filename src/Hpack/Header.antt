-- ===== src/Hpack/Header.antt =====
-- `hpack_encode_header` and `hpack_decode_headers`. `on_header`, the caller's function, is a
-- parameter: from the caller's state it gives the new one, or its error.
pub mod Fields
pub mod RoundTrip
pub mod Safe
use smartdns_ui.Prelude.{
  ℕ, zero, suc, ◌+◌, ◌-◌, ◌*◌, ◌^◌, Bool, true, false, List, [], ◌∷◌, ◌++◌, length, drop, ltb, ◌==◌,
  not, if◌then◌else◌, bit_and, Outcome, ok, fail, stuck, ◌>>=◌, ◌>>◌, fail_if,
}
use smartdns_ui.Hpack.Integer.{encode_integer, decode_integer}
use smartdns_ui.Hpack.Strings.{encode_string, decode_string}
use smartdns_ui.Hpack.Table.Static.{Field}
use smartdns_ui.Hpack.Table.{
  HpackContext, add_dynamic_entry, resize_dynamic_table, get_entry, find_index,
}

-- The bytes of the field and the context; an error leaves the context as it was.
unfoldable pub encode_header : HpackContext → List ℕ → List ℕ → ℕ → Outcome (List ℕ × HpackContext)
encode_header hpack name value buf_size =
    let (index, name_only_index) = find_index hpack name value in
    let indexed : Outcome (List ℕ × HpackContext) = do
      fail_if (ltb buf_size 1)
      bytes ← encode_integer index 7 0x80 buf_size
      ok (bytes, hpack)
    in let indexed_name : Outcome (List ℕ × HpackContext) = do
      fail_if (ltb buf_size 1)
      bytes ← encode_integer name_only_index 6 0x40 buf_size
      bytes' ← encode_string value (buf_size - length bytes)
      ok (bytes ++ bytes', add_dynamic_entry hpack name value)
      in let new_name : Outcome (List ℕ × HpackContext) = do
        fail_if (ltb buf_size 1)
        bytes ← encode_string name (buf_size - 1)
        bytes' ← encode_string value (buf_size - 1 - length bytes)
        ok (0x40 ∷ bytes ++ bytes', add_dynamic_entry hpack name value)
        in if ltb 0 index then indexed else if ltb 0 name_only_index then indexed_name else new_name

-- A field name: from the tables by its index, or as a string when the index is 0. The bytes are
-- those behind the index; the result is the name and how many of them were read.
pub decode_name : HpackContext → ℕ → List ℕ → Outcome (List ℕ × ℕ)
decode_name hpack index bytes =
    if ltb 0 index then (do f ← get_entry hpack index; ok (f.name, 0)) else decode_string bytes

-- The four kinds of field. A result is the bytes read, the context, `header_field_seen`, and the
-- header that goes to the caller, if there is one.
pub record Step : Type 0 where
  pub read : ℕ
  pub hpack : HpackContext
  pub seen : Bool
  pub header : List Field

pub decode_indexed : HpackContext → List ℕ → Outcome Step
decode_indexed hpack bytes = do
  (index, ret) ← decode_integer bytes 7
  f ← get_entry hpack index
  ok (record { read = ret; hpack = hpack; seen = true; header = f ∷ [] })

pub decode_incremental : HpackContext → List ℕ → Outcome Step
decode_incremental hpack bytes = do
  (index, r₁) ← decode_integer bytes 6
  (name, r₂) ← decode_name hpack index (drop r₁ bytes)
  (value, r₃) ← decode_string (drop (r₁ + r₂) bytes)
  ok (record {
    read = r₁ + r₂ + r₃;
    hpack = add_dynamic_entry hpack name value;
    seen = true;
    header = record { name = name; value = value } ∷ [];
  })

abbrev pub hpack_max_dynamic_table_size : ℕ
hpack_max_dynamic_table_size = 65536

pub decode_size_update : HpackContext → Bool → List ℕ → Outcome Step
decode_size_update hpack seen bytes = do
  fail_if seen
  (new_size, ret) ← decode_integer bytes 5
  fail_if (ltb hpack_max_dynamic_table_size new_size)
  ok (record { read = ret; hpack = resize_dynamic_table hpack new_size; seen = seen; header = [] })

pub decode_plain : HpackContext → List ℕ → Outcome Step
decode_plain hpack bytes = do
  (index, r₁) ← decode_integer bytes 4
  (name, r₂) ← decode_name hpack index (drop r₁ bytes)
  (value, r₃) ← decode_string (drop (r₁ + r₂) bytes)
  ok (record {
    read = r₁ + r₂ + r₃;
    hpack = hpack;
    seen = true;
    header = record { name = name; value = value } ∷ [];
  })

-- The branch by the bits of the first byte.
unfoldable pub decode_field : HpackContext → Bool → ℕ → List ℕ → Outcome Step
unfolding decode_name decode_indexed decode_incremental decode_size_update decode_plain
decode_field hpack seen byte bytes =
    if not (bit_and byte 0x80 == 0)
    then decode_indexed hpack bytes
    else if not (bit_and byte 0x40 == 0)
    then decode_incremental hpack bytes
    else if not (bit_and byte 0x20 == 0)
    then decode_size_update hpack seen bytes
    else decode_plain hpack bytes

module _ {S : Type 0} (on_header : S → List ℕ → List ℕ → Outcome S) where
  unfoldable pub report : List Field → S → Outcome S
  report [] ctx = ok ctx
  report (f ∷ fs) ctx = on_header ctx f.name f.value

  -- The `while (offset < data_len)` on the bytes from `offset` on. Each round reads a byte at
  -- least, so as many rounds as there are bytes are enough.
  unfoldable pub decode_loop : ℕ → HpackContext → Bool → List ℕ → S → Outcome (HpackContext × S)
  decode_loop fuel hpack seen [] ctx = ok (hpack, ctx)
  decode_loop zero hpack seen (byte ∷ rest) ctx = stuck
  decode_loop (suc fuel) hpack seen (byte ∷ rest) ctx = do
    step ← decode_field hpack seen byte (byte ∷ rest)
    ctx' ← report step.header ctx
    decode_loop fuel step.hpack step.seen (drop step.read (byte ∷ rest)) ctx'

  -- `hpack_decode_headers`
  unfoldable pub decode_headers : HpackContext → List ℕ → S → Outcome (HpackContext × S)
  unfolding report decode_loop
  decode_headers hpack bytes ctx = decode_loop (length bytes) hpack false bytes ctx
