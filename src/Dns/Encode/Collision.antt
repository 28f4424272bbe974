-- ===== src/Dns/Encode/Collision.antt =====
-- `_dns_get_domain_offset` decodes the name of an entry and never compares it with the domain: it
-- goes by the hash alone, and the hash is easy to meet twice.
use smartdns_ui.Prelude.{
  ℕ, ◌+◌, ◌-◌, ◌*◌, ◌/◌, ◌%◌, ◌^◌, ◌≤◌, ◌<◌, ◌≡◌, ap, ◌∙◌, List, ◌∷◌, length, get_elem?,
  get_elem?-set_self, get_elem?-set_ne, length-set, set, lt→ltb, ltb-false, some, bit_or,
  or_disjoint, ok, arith,
}
use smartdns_ui.Dns.Wire.Shorts.{put_short, write_short-eq-ok}
use smartdns_ui.Dns.Domain.{get_domain_from_packet}
use smartdns_ui.Dns.Encode.{
  dict_hash_loop, Context, DictItem, widen, dict_hash, dns_max_cname_len, find_hash, check_item,
  on_hash, get_domain_offset, put_pointer, encode_loop, encode_domain,
}

-- One more in a byte and 31 less in the next.
abbrev pub twin : ℕ → ℕ → List ℕ → List ℕ
twin x y rest = (x + 1) ∷ (y - 31) ∷ rest

pub dict_hash-twin :
    (x y : ℕ) (rest : List ℕ)
    → x < 127
    → 31 ≤ y
    → y < 128
    → dict_hash (twin x y rest) ≡ dict_hash (x ∷ y ∷ rest)
unfolding dict_hash
dict_hash-twin x y rest hx hy ly = ap (λ v. dict_hash_loop v rest) same
  where
    same :
        (widen (y - 31) + 31 * ((widen (x + 1) + 31 * 0) % 2 ^ 32)) % 2 ^ 32
        ≡ (widen y + 31 * ((widen x + 31 * 0) % 2 ^ 32)) % 2 ^ 32
    same = ground arith

module _ (c : Context) (b : ℕ) (s : List ℕ) (item : DictItem) (name : List ℕ) (e : ℕ) where
  get_domain_offset-hit :
      find_hash (dict_hash (b ∷ s)) c.namedict ≡ some item
      → get_domain_from_packet c.bytes c.maxsize item.pos dns_max_cname_len ≡ ok (name, e)
      → get_domain_offset c (b ∷ s) ≡ ok (some item.pos, c)
  unfolding get_domain_offset on_hash check_item
  get_domain_offset-hit h d = rw (h, on_hash, check_item, d)

-- In a packet whose `maxsize` bytes are there: for a name `x y rest` with `x` below 127 and `y` from
-- 31 to 127, whose hash finds an entry of the dictionary that is below 0x4000 and that the code
-- decodes to this name, and with three bytes of room. Encoding the other name `twin x y rest`, which
-- has `x + 1` and `y - 31` for the first two bytes and the same hash, reports success in two bytes,
-- and these are a pointer to the entry.
pub encode_domain-twin :
    (c : Context) (x y : ℕ) (rest : List ℕ) (item : DictItem) (e : ℕ)
    → x < 127
    → 31 ≤ y
    → y < 128
    → find_hash (dict_hash (x ∷ y ∷ rest)) c.namedict ≡ some item
    → get_domain_from_packet c.bytes c.maxsize item.pos dns_max_cname_len ≡ ok (x ∷ y ∷ rest, e)
    → item.pos < 0x4000
    → c.ptr + 3 ≤ c.maxsize
    → c.maxsize ≤ length c.bytes
    → (d : Context) × (encode_domain c (twin x y rest) ≡ ok (2, d))
      × (get_elem? d.bytes c.ptr ≡ some (0xC0 + item.pos / 256))
      × (get_elem? d.bytes (c.ptr + 1) ≡ some (item.pos % 256))
unfolding encode_domain encode_loop put_pointer
encode_domain-twin c x y rest item e hx hy ly found decoded low room inside =
    let c₁ = record c { ptr = c.ptr + 1 } in
    let hit =
      get_domain_offset-hit c₁ (x + 1) ((y - 31) ∷ rest) item (x ∷ y ∷ rest) e
        (ap (λ h. find_hash h c.namedict) (dict_hash-twin x y rest hx hy ly) ∙ found) decoded in
    let w = bit_or 0xc000 item.pos in
    let we : w ≡ 0xc000 + item.pos = or_disjoint 14 3 item.pos low in
    (
      record c { bytes = put_short c.bytes c.ptr w; ptr = c.ptr + 1 + 1 },
      rw (
        hit,
        lt→ltb 1 (c.maxsize - (c.ptr + 1)) (omega arith),
        ltb-false (c.maxsize - (c.ptr + 1)) 2 (omega arith),
        write_short-eq-ok c.bytes c.ptr w (omega arith),
      ),
      get_elem?-set_ne (set c.bytes c.ptr _) (c.ptr + 1) c.ptr _ (λ q. omega arith)
          ∙ get_elem?-set_self c.bytes c.ptr _ (omega arith)
          ∙ ap some (omega (arith, we)),
      get_elem?-set_self (set c.bytes c.ptr _) (c.ptr + 1) _
            (omega (arith, length-set c.bytes c.ptr (w / 256 % 256)))
          ∙ ap some (omega (arith, we)),
    )
