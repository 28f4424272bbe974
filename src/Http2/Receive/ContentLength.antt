-- ===== src/Http2/Receive/ContentLength.antt =====
-- `_http2_get_content_length` and `_http2_check_content_length` of src/http_parse/http2.c. A header
-- that comes twice counts the last time, since the map's buckets have the newest first.
use smartdns_ui.Prelude.{
  same_name, ℕ, ◌+◌, ◌-◌, ◌*◌, Bool, true, false, Option, none, some, List, [], ◌∷◌, ltb, leb, ◌==◌,
  ◌&&◌, ◌||◌, not, if◌then◌else◌,
}
use smartdns_ui.Hpack.Table.Static.{Field, codes}
use smartdns_ui.Http2.Output.{int_max}

-- `_http2_stream_get_header_value`
unfoldable pub get_header_value : List Field → List ℕ → Option (List ℕ)
unfolding same_name
get_header_value [] name = none
get_header_value (f ∷ fields) name =
    let own : Option (List ℕ) = if same_name 128 f.name name then some f.value else none in
    elim (get_header_value fields name) [ none ↦ own | some value ↦ some value ]

abbrev is_digit : ℕ → Bool
is_digit b = leb 48 b && leb b 57

-- The digits at the front of a string: their value after `n`, how many they are, and what follows.
unfoldable pub read_digits : ℕ → List ℕ → ℕ × (ℕ × List ℕ)
read_digits n [] = (n, (0, []))
read_digits n (b ∷ bytes) =
    let r = read_digits (n * 10 + (b - 48)) bytes in
    if is_digit b then (r.0, (r.1.0 + 1, r.1.1)) else (n, (0, b ∷ bytes))

-- `isspace`
unfoldable pub skip_spaces : List ℕ → List ℕ
skip_spaces [] = []
skip_spaces (b ∷ bytes) =
    let rest = skip_spaces bytes in if b == 32 || (leb 9 b && leb b 13) then rest else b ∷ bytes

abbrev is_minus : List ℕ → Bool
is_minus [] = false
is_minus (b ∷ bytes) = b == 45

abbrev skip_sign : List ℕ → List ℕ
skip_sign [] = []
skip_sign (b ∷ bytes) = if b == 45 || b == 43 then bytes else b ∷ bytes

-- What `_http2_get_content_length` finds: −1, a length, or that the header is not valid.
pub data ContentLength : Type 0 where
  absent : ContentLength
  len : ℕ → ContentLength
  invalid : ContentLength

abbrev is_nil : List ℕ → Bool
is_nil [] = true
is_nil (b ∷ bytes) = false

-- `strtol` and the tests of its results
unfoldable pub parse_content_length : List ℕ → ContentLength
unfolding skip_spaces read_digits
parse_content_length value =
    let bytes = skip_spaces value in
    let r = read_digits 0 (skip_sign bytes) in
    if r.1.0 == 0 || not (is_nil r.1.1)
    then absent
    else if (is_minus bytes && ltb 0 r.0) || ltb int_max r.0
    then invalid
    else len r.0

-- `_http2_get_content_length`
unfoldable pub get_content_length : List Field → ContentLength
unfolding get_header_value parse_content_length
get_content_length fields = elim (get_header_value fields (codes "content-length")) [
  | none ↦ absent
  | some value ↦ parse_content_length value
]

-- `_http2_check_content_length`: the stream is to be reset.
unfoldable pub check_content_length : List Field → ℕ → Bool → Bool
unfolding get_content_length
check_content_length fields body_len end_stream = elim (get_content_length fields) [
  | absent ↦ false
  | len n ↦ ltb n body_len || (end_stream && not (body_len == n))
  | invalid ↦ true
]
