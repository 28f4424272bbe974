-- ===== src/Hpack/Runs.antt =====
-- Concrete runs of the header compression, and its theorems at concrete inputs.
use smartdns_ui.Prelude.{
  ℕ, ◌≤◌, ◌≡◌, ◌≢◌, ◌⊎◌, refl, List, [], ◌∷◌, ◌++◌, length, Outcome, ok, fail, ◌>>=◌, arith,
  Ensures,
}
use smartdns_ui.Hpack.Integer.{encode_integer, decode_integer, encode_groups, decode_groups}
use smartdns_ui.Hpack.Integer.RoundTrip.{decode_integer-encode_integer}
use smartdns_ui.Hpack.Huffman.{decode_huffman}
use smartdns_ui.Hpack.Strings.{encode_string, decode_string}
use smartdns_ui.Hpack.Strings.RoundTrip.{decode_string-encode_string}
use smartdns_ui.Hpack.Table.Static.{Field, codes, hpack_static_table}
use smartdns_ui.Hpack.Table.{
  HpackContext, Entry, init_context, str_eq, evict, add_dynamic_entry, resize_dynamic_table,
  find_static, find_dynamic, find_index, get_entry,
}
use smartdns_ui.Hpack.Table.Invariant.{
  IsConsistent, IsBounded, Added, Resized, add_dynamic_entry-IsBounded,
  resize_dynamic_table-IsBounded,
}
use smartdns_ui.Hpack.Table.Lookup.{pair, find_index-get_entry}
use smartdns_ui.Hpack.Huffman.Bounds.{decode_huffman-Ensures}
use smartdns_ui.Hpack.Header.{encode_header, decode_headers, decode_field}
use smartdns_ui.Hpack.Header.Safe.{IsLimited, decode_headers-IsLimited}
use smartdns_ui.Hpack.Header.Fields.{IsReady}
use smartdns_ui.Hpack.Header.RoundTrip.{Encodes, done, next, report_all, decode_headers-Encodes}

-- RFC 7541, C.1.2: 1337 with a prefix of five bits
encode_1337 : encode_integer 1337 5 0 16 ≡ ok (31 ∷ 154 ∷ 10 ∷ [])
unfolding encode_integer encode_groups
encode_1337 = refl

decode_overflow :
    decode_integer (0xFF ∷ 0xFF ∷ 0xFF ∷ 0xFF ∷ 0xFF ∷ 0xFF ∷ 0xFF ∷ 0xFF ∷ 0xFF ∷ 0xFF ∷ 2 ∷ []) 8
    ≡ fail
unfolding decode_integer decode_groups
decode_overflow = refl

-- RFC 7541, C.4.1: "www.example.com"
decode_www :
    decode_huffman
      (0xf1 ∷ 0xe3 ∷ 0xc2 ∷ 0xe5 ∷ 0xf2 ∷ 0x3a ∷ 0x6b ∷ 0xa0 ∷ 0xab ∷ 0x90 ∷ 0xf4 ∷ 0xff ∷ [])
      24
    ≡ ok (codes "www.example.com")
unfolding decode_huffman
decode_www = refl

decode_integer-encode_integer_example :
    (bytes : List ℕ) × (encode_integer 1337 5 0x20 11 ≡ ok bytes)
    × (length bytes ≤ 11)
    × (decode_integer (bytes ++ 7 ∷ []) 5 ≡ ok (1337, length bytes))
decode_integer-encode_integer_example =
    decode_integer-encode_integer 1337 5 0x20 11 (7 ∷ []) (omega arith) (omega arith)
      (refl, omega arith) (omega arith)

decode_string-encode_string_example :
    (bytes : List ℕ) × (encode_string (codes "gzip") 16 ≡ ok bytes)
    × (decode_string (bytes ++ 0 ∷ []) ≡ ok (codes "gzip", length bytes))
decode_string-encode_string_example =
    decode_string-encode_string (codes "gzip") (0 ∷ []) 16 (omega arith) (omega arith) (omega arith)

abbrev x_field : Field
x_field = pair (codes "x-id") (codes "42")

abbrev x_entry : Entry
x_entry = record { name = codes "x-id"; value = codes "42"; size = 38 }

abbrev small_context : HpackContext
small_context = record {
  dynamic_table = x_entry ∷ [];
  dynamic_table_size = 38;
  max_dynamic_table_size = 64;
  entry_count = 1;
}

small_context-IsConsistent : IsConsistent small_context
small_context-IsConsistent = omega arith

add_dynamic_entry-IsBounded_example :
    IsBounded (add_dynamic_entry small_context (codes "y") (codes "1"))
    × ((add_dynamic_entry small_context (codes "y") (codes "1")).max_dynamic_table_size ≡ 64)
    × Added small_context
        (codes "y")
        (codes "1")
        (add_dynamic_entry small_context (codes "y") (codes "1"))
add_dynamic_entry-IsBounded_example =
    add_dynamic_entry-IsBounded small_context (codes "y") (codes "1") small_context-IsConsistent

resize_dynamic_table-IsBounded_example :
    IsBounded (resize_dynamic_table small_context 20)
    × ((resize_dynamic_table small_context 20).max_dynamic_table_size ≡ 20)
    × Resized small_context (resize_dynamic_table small_context 20)
resize_dynamic_table-IsBounded_example =
    resize_dynamic_table-IsBounded small_context 20 small_context-IsConsistent

find_index-get_entry_example :
    (((find_index small_context (codes "x-id") (codes "42")).0 ≡ 0)
      ⊎ (get_entry small_context (find_index small_context (codes "x-id") (codes "42")).0
          ≡ ok (pair (codes "x-id") (codes "42"))))
    × (((find_index small_context (codes "x-id") (codes "42")).1 ≡ 0)
        ⊎ ((v : List ℕ) × (get_entry small_context
                (find_index small_context (codes "x-id") (codes "42")).1
              ≡ ok (pair (codes "x-id") v))))
    × ((find_index small_context (codes "x-id") (codes "42")).0 ≡ 0
        → (k : ℕ) → get_entry small_context k ≢ ok (pair (codes "x-id") (codes "42")))
find_index-get_entry_example = find_index-get_entry small_context (codes "x-id") (codes "42")

find_x : find_index small_context (codes "x-id") (codes "42") ≡ (62, 62)
unfolding find_index find_static find_dynamic str_eq hpack_static_table
find_x = refl

-- Two fields: one of the static table, and a new one.
abbrev get_field : Field
get_field = pair (codes ":method") (codes "GET")

abbrev after : HpackContext
after = record {
  dynamic_table = x_entry ∷ [];
  dynamic_table_size = 38;
  max_dynamic_table_size = 65536;
  entry_count = 1;
}

abbrev x_bytes : List ℕ
x_bytes = 0x40 ∷ 4 ∷ codes "x-id" ++ 2 ∷ codes "42"

encodes_get :
    encode_header init_context get_field.name get_field.value 64 ≡ ok (0x82 ∷ [], init_context)
unfolding encode_header find_index find_static find_dynamic str_eq hpack_static_table encode_integer
    init_context
encodes_get = refl

encodes_x : encode_header init_context x_field.name x_field.value 64 ≡ ok (x_bytes, after)
unfolding encode_header find_index find_static find_dynamic str_eq hpack_static_table encode_integer
    encode_string add_dynamic_entry evict init_context
encodes_x = refl

Encodes-both : Encodes init_context (get_field ∷ x_field ∷ []) (0x82 ∷ x_bytes) after
Encodes-both =
    next init_context init_context after get_field (x_field ∷ []) (0x82 ∷ []) x_bytes 64 encodes_get
      (next init_context after after x_field [] x_bytes [] 64 encodes_x (done after))

init_context-IsReady : IsReady init_context
unfolding init_context
init_context-IsReady = omega arith

-- The caller collects the fields.
abbrev collect : List Field → List ℕ → List ℕ → Outcome (List Field)
collect fs name value = ok (fs ++ pair name value ∷ [])

decode_headers-Encodes_example :
    decode_headers collect init_context (0x82 ∷ x_bytes) []
    ≡ (report_all collect (get_field ∷ x_field ∷ []) [] >>= λ c. ok (after, c))
decode_headers-Encodes_example =
    decode_headers-Encodes collect [] init_context after (get_field ∷ x_field ∷ []) (0x82 ∷ x_bytes)
      init_context-IsReady (omega arith) Encodes-both

init_context-IsLimited : IsLimited init_context
unfolding init_context
init_context-IsLimited = (
  record {
    consistent = record { size_counted = refl; entries_counted = refl; sized = tt };
    fits = omega arith;
  },
  omega arith,
)

-- A field of the dynamic table that is not there, and bytes that end too soon.
decode_missing : decode_headers collect init_context (0xBE ∷ []) [] ≡ fail
unfolding decode_headers decode_field decode_integer get_entry init_context
decode_missing = refl

decode_headers-IsLimited_example :
    Ensures (λ r. IsLimited r.0) (decode_headers collect init_context (0x41 ∷ 0x85 ∷ 0xFF ∷ []) [])
decode_headers-IsLimited_example =
    decode_headers-IsLimited collect init_context (0x41 ∷ 0x85 ∷ 0xFF ∷ []) [] (λ c n v. tt)
      init_context-IsLimited

decode_huffman-Ensures_example :
    Ensures (λ dst. length dst ≤ 4) (decode_huffman (0xf1 ∷ 0xe3 ∷ []) 4)
decode_huffman-Ensures_example = decode_huffman-Ensures (0xf1 ∷ 0xe3 ∷ []) 4
