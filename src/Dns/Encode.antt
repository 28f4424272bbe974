-- ===== src/Dns/Encode.antt =====
-- src/dns.c: `_dns_encode_domain`, with the dictionary of names that it compresses by. A domain is
-- the list of its bytes in front of the NUL. On an error the caller drops the whole packet, so
-- `fail` carries no context.
pub mod Bounds
pub mod Collision
use smartdns_ui.Prelude.{
  ℕ, zero, ◌+◌, ◌-◌, ◌*◌, ◌%◌, ◌^◌, Bool, true, false, ◌&&◌, List, [], ◌∷◌, ◌++◌, length, set, ltb,
  leb, ◌==◌, not, if◌then◌else◌, bit_or, Option, none, some, Outcome, ok, fail, fault, stuck, ◌>>=◌,
  ◌>>◌, fail_if, access,
}
use smartdns_ui.Dns.Wire.{write_short, write_char}
use smartdns_ui.Dns.Domain.{get_domain_from_packet}

-- `struct dns_packet_dict_item`
pub record DictItem : Type 0 where
  pub pos : ℕ
  pub hash : ℕ

-- `struct dns_context`; the entries of `namedict` up to `dict_count`, first to last
pub record Context : Type 0 where
  pub bytes : List ℕ
  pub ptr : ℕ
  pub maxsize : ℕ
  pub namedict : List DictItem

abbrev pub dns_packet_dict_size : ℕ
dns_packet_dict_size = 16

abbrev pub dns_max_cname_len : ℕ
dns_max_cname_len = 256

-- A plain `char` is signed: it widens with its sign.
abbrev pub widen : ℕ → ℕ
widen c = if ltb c 128 then c else c + 2 ^ 32 - 256

dict_hash_loop : ℕ → List ℕ → ℕ
dict_hash_loop hashval [] = hashval
dict_hash_loop hashval (c ∷ s) = dict_hash_loop ((widen c + 31 * hashval) % 2 ^ 32) s

unfoldable pub dict_hash : List ℕ → ℕ
unfolding dict_hash_loop
dict_hash s = dict_hash_loop 0 s

-- `_dns_add_domain_dict`; its result is not used
pub add_domain_dict : Context → ℕ → ℕ → Context
add_domain_dict c hash pos =
    if leb dns_packet_dict_size (length c.namedict)
    then c
    else if hash == 0
    then c
    else if leb c.maxsize pos
    then c
    else record c { namedict = c.namedict ++ record { pos = pos % 2 ^ 16; hash = hash } ∷ [] }

-- The first entry of the dictionary with this hash.
unfoldable pub find_hash : ℕ → List DictItem → Option DictItem
find_hash hash [] = none
find_hash hash (item ∷ items) = if item.hash == hash then some item else find_hash hash items

-- `_dns_get_domain_from_packet` at an entry: the name that it finds is not looked at.
pub check_item : Context → DictItem → Outcome (Option ℕ)
check_item c item = elim (get_domain_from_packet c.bytes c.maxsize item.pos dns_max_cname_len) [
  | ok r ↦ ok (some item.pos)
  | fail ↦ ok none
  | fault ↦ fault
  | stuck ↦ stuck
]

pub on_hash : Context → ℕ → Option DictItem → Outcome (Option ℕ × Context)
on_hash c hash none = ok (none, add_domain_dict c hash (c.ptr - 1))
on_hash c hash (some item) = do offset ← check_item c item; ok (offset, c)

-- `_dns_get_domain_offset`; `none` is -1
pub get_domain_offset : Context → List ℕ → Outcome (Option ℕ × Context)
get_domain_offset c [] = ok (none, c)
get_domain_offset c (b ∷ s) =
    let hash = dict_hash (b ∷ s) in on_hash c hash (find_hash hash c.namedict)

-- the branch `dict_offset >= 0` of the loop
pub put_pointer : Context → ℕ → ℕ → ℕ → Outcome (ℕ × Context)
put_pointer c ptr_num total_len offset = do
  fail_if (ltb (c.maxsize - c.ptr) 2)
  (d, _) ← write_short c.bytes ptr_num (bit_or 0xc000 offset)
  ok (total_len, record c { bytes = d; ptr = c.ptr + 1 })

-- the branch `total_len > 1` behind the loop, and the check behind it
pub put_root : Context → ℕ → Outcome (ℕ × Context)
put_root c total_len = do
  (d, p) ← write_char c.bytes c.ptr 0
  fail_if (leb (c.maxsize - p) 0)
  ok (total_len + 1, record c { bytes = d; ptr = p })

-- what follows the loop
pub end_domain : Context → ℕ → ℕ → ℕ → Outcome (ℕ × Context)
end_domain c ptr_num num total_len = do
  fail_if (ltb (c.maxsize - c.ptr) 1)
  (d, _) ← write_char c.bytes ptr_num num
  if ltb 1 total_len
      then put_root (record c { bytes = d }) total_len
      else (do fail_if (leb (c.maxsize - c.ptr) 0); ok (total_len, record c { bytes = d }))

-- The `while` of `_dns_encode_domain`: `ptr_num` is where the length of the label goes, `num` the
-- bytes of it so far, and `dict_offset` what the dictionary has for the rest of the domain.
pub encode_loop : List ℕ → Context → ℕ → ℕ → ℕ → Option ℕ → Outcome (ℕ × Context)
encode_loop [] c ptr_num num total_len dict_offset = end_domain c ptr_num num total_len
encode_loop (b ∷ s) c ptr_num num total_len (some offset) =
    if ltb 1 (c.maxsize - c.ptr)
    then put_pointer c ptr_num (total_len + 1) offset
    else end_domain c ptr_num num total_len
encode_loop (b ∷ s) c ptr_num num total_len none =
    let dot : Outcome (ℕ × Context) = do
      (d, _) ← write_char c.bytes ptr_num num
      (offset, c') ← get_domain_offset (record c { bytes = d; ptr = c.ptr + 1 }) s
      encode_loop s c' c.ptr 0 (total_len + 1) offset
    in let char : Outcome (ℕ × Context) = do
      (d, p) ← write_char c.bytes c.ptr b
      encode_loop s (record c { bytes = d; ptr = p }) ptr_num (num + 1) (total_len + 1) none
      in if ltb 1 (c.maxsize - c.ptr)
        then (if b == b'.' then dot else char)
        else end_domain c ptr_num num total_len

-- `_dns_encode_domain`
unfoldable pub encode_domain : Context → List ℕ → Outcome (ℕ × Context)
encode_domain c domain = do
  (offset, c') ← get_domain_offset (record c { ptr = c.ptr + 1 }) domain
  encode_loop domain c' c.ptr 0 1 offset
