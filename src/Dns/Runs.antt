-- ===== src/Dns/Runs.antt =====
-- Concrete runs of the packet codec, and its theorems at concrete inputs.
use smartdns_ui.Prelude.{
  ℕ, ◌+◌, ◌/◌, ◌%◌, ◌≤◌, ◌<◌, ◌≡◌, refl, ◌⊎◌, List, [], ◌∷◌, length, get_elem?, some, ok, fail,
  Ensures, arith,
}
use smartdns_ui.Dns.Question.{add_rr_head, get_qr_head}
use smartdns_ui.Dns.Question.Bounds.{Fits, add_rr_head-Fits, get_qr_head_safe}
use smartdns_ui.Dns.Wire.{read_short}
use smartdns_ui.Dns.Domain.{get_domain_from_packet}
use smartdns_ui.Dns.Domain.Bounds.{get_domain_from_packet_safe}
use smartdns_ui.Dns.Domain.Sound.{NameAt, join, get_domain_from_packet_sound}
use smartdns_ui.Dns.Head.{Head, decode_head, encode_head}
use smartdns_ui.Dns.Head.RoundTrip.{decode_head-encode_head}
use smartdns_ui.Dns.Encode.{Context, DictItem, dict_hash, find_hash, encode_domain}
use smartdns_ui.Dns.Encode.Bounds.{Wrote, encode_domain-Wrote}
use smartdns_ui.Dns.Encode.Collision.{twin, encode_domain-twin}

-- "a" at 0, and "b" followed by a pointer to it at 3
abbrev two_names : List ℕ
two_names = 1 ∷ b'a' ∷ 0 ∷ 1 ∷ b'b' ∷ 0xC0 ∷ 0 ∷ []

decodes : get_domain_from_packet two_names 7 3 256 ≡ ok (b'b' ∷ b'.' ∷ b'a' ∷ [], 7)
unfolding get_domain_from_packet
decodes = refl

-- a pointer to itself
loops : get_domain_from_packet (0xC0 ∷ 0 ∷ []) 2 0 256 ≡ fail
unfolding get_domain_from_packet
loops = refl

get_domain_from_packet_safe_example :
    Ensures (λ r. (length r.0 < 256) × (r.1 ≤ 7)) (get_domain_from_packet two_names 7 3 256)
get_domain_from_packet_safe_example = get_domain_from_packet_safe two_names 7 3 256 (omega arith)

get_domain_from_packet_sound_example :
    Ensures
      (λ r. (ls : List (List ℕ)) × NameAt two_names 3 ls r.1 × (r.0 ≡ join [] ls))
      (get_domain_from_packet two_names 7 3 256)
get_domain_from_packet_sound_example = get_domain_from_packet_sound two_names 7 3 256 (omega arith)

abbrev answer_head : Head
answer_head = record {
  id = 0xBEEF;
  qr = 1;
  opcode = 2;
  aa = 0;
  tc = 1;
  rd = 1;
  ra = 1;
  z = 0;
  ad = 1;
  cd = 0;
  rcode = 3;
  qdcount = 1;
  ancount = 2;
  nscount = 0;
  nrcount = 300;
}

abbrev zeros : List ℕ
zeros = 0 ∷ 0 ∷ 0 ∷ 0 ∷ 0 ∷ 0 ∷ 0 ∷ 0 ∷ 0 ∷ 0 ∷ 0 ∷ 0 ∷ 7 ∷ []

decode_head-encode_head_example :
    (d : List ℕ) × (encode_head zeros 13 0 answer_head ≡ ok (d, 12, 12))
    × (decode_head d 13 0 answer_head ≡ ok (answer_head, 12))
    × ((q : ℕ) → (q < 0) ⊎ (12 ≤ q) → get_elem? d q ≡ get_elem? zeros q)
decode_head-encode_head_example =
    decode_head-encode_head answer_head answer_head zeros 13 0 (ground arith) (omega arith)
      (omega arith)

abbrev empty_context : Context
empty_context = record { bytes = zeros; ptr = 0; maxsize = 13; namedict = [] }

encode_domain-Wrote_example :
    Ensures (Wrote 0 empty_context) (encode_domain empty_context (b'a' ∷ b'.' ∷ b'b' ∷ []))
encode_domain-Wrote_example =
    encode_domain-Wrote empty_context (b'a' ∷ b'.' ∷ b'b' ∷ []) (omega arith)

-- A packet with the name "Ab" at 0, which the dictionary has; "BC" has the same hash.
abbrev ab_item : DictItem
ab_item = record { pos = 0; hash = 2113 }

abbrev ab_context : Context
ab_context = record {
  bytes = 2 ∷ b'A' ∷ b'b' ∷ 0 ∷ 0 ∷ 0 ∷ 0 ∷ 0 ∷ [];
  ptr = 4;
  maxsize = 8;
  namedict = ab_item ∷ [];
}

ab_found : find_hash (dict_hash (b'A' ∷ b'b' ∷ [])) (ab_item ∷ []) ≡ some ab_item
unfolding find_hash dict_hash
ab_found = refl

ab_decodes : get_domain_from_packet ab_context.bytes 8 0 256 ≡ ok (b'A' ∷ b'b' ∷ [], 4)
unfolding get_domain_from_packet
ab_decodes = refl

encode_domain-twin_example :
    (d : Context) × (encode_domain ab_context (twin b'A' b'b' []) ≡ ok (2, d))
    × (get_elem? d.bytes 4 ≡ some (0xC0 + 0 / 256))
    × (get_elem? d.bytes (4 + 1) ≡ some (0 % 256))
encode_domain-twin_example =
    encode_domain-twin ab_context b'A' b'b' [] ab_item 4 (omega arith) (omega arith) (omega arith)
      ab_found ab_decodes (omega arith) (omega arith) (omega arith)

-- A packet of zeros, and the question "a" of type 28 and class 1.
abbrev question_context : Context
question_context = record { bytes = zeros; ptr = 0; maxsize = 13; namedict = [] }

read_question :
    get_qr_head
      (record { bytes = 1 ∷ b'a' ∷ 0 ∷ 0 ∷ 28 ∷ 0 ∷ 1 ∷ []; ptr = 0; maxsize = 7; namedict = [] })
      16
    ≡ ok (b'a' ∷ [], 28, 1, 7)
unfolding get_qr_head get_domain_from_packet read_short
read_question = refl

add_rr_head-Fits_example :
    Ensures (Fits 0 question_context) (add_rr_head question_context (b'a' ∷ []) 1 1 60 4)
add_rr_head-Fits_example = add_rr_head-Fits question_context (b'a' ∷ []) 1 1 60 4 (omega arith)

get_qr_head_safe_example :
    Ensures (λ r. (length r.0 < 16) × (r.3 ≤ 13)) (get_qr_head question_context 16)
get_qr_head_safe_example = get_qr_head_safe question_context 16 (omega arith)
