-- ===== src/DnsCache/Table/Insert/Looked.antt =====
-- What `dns_cache_insert` of src/dns_cache.c puts in, `dns_cache_lookup` finds.
use smartdns_ui.Prelude.{
  ℕ, zero, suc, ◌≤◌, ◌<◌, ◌≡◌, refl, ap, ◌∙◌, true, List, [], ◌∷◌, Option, none, some, ◌==◌,
  if◌then◌else◌, length, arith, take, to_lower, same_name, same_bytes,
}
use smartdns_ui.DnsCache.Entry.{Answer}
use smartdns_ui.DnsCache.Table.{
  Key, Item, matches, find_entry, copy_string, dns_group_name_len, new_info, new_item,
}
use smartdns_ui.Dns.Encode.{dns_max_cname_len}
use smartdns_ui.DnsCache.Table.Insert.Oldest.{new_entry}
use smartdns_ui.DnsCache.Table.Find.{is_found}

take_all : (n : ℕ) (xs : List ℕ) → length xs ≤ n → take n xs ≡ xs
take_all zero [] h = refl
take_all zero (x ∷ xs) h = absurd (omega arith)
take_all (suc n) [] h = refl
take_all (suc n) (x ∷ xs) h = ap (λ l. x ∷ l) (take_all n xs (omega arith))

same : (b : ℕ) → (b == b) ≡ true
same b = ground arith

same_name_refl : (n : ℕ) (xs : List ℕ) → same_name n xs xs ≡ true
unfolding same_name
same_name_refl zero xs = refl
same_name_refl (suc n) [] = refl
same_name_refl (suc n) (x ∷ xs) = rw (same (to_lower x)) (same_name_refl n xs)

same_bytes_refl : (n : ℕ) (xs : List ℕ) → same_bytes n xs xs ≡ true
unfolding same_bytes
same_bytes_refl zero xs = refl
same_bytes_refl (suc n) [] = refl
same_bytes_refl (suc n) (x ∷ xs) = rw (same x) (same_bytes_refl n xs)

-- A key that fits is stored as it is.
pub stored_whole :
    (key : Key)
    → length key.domain < dns_max_cname_len
    → length key.dns_group_name < dns_group_name_len
    → record key {
      domain = copy_string dns_max_cname_len key.domain;
      dns_group_name = copy_string dns_group_name_len key.dns_group_name;
    }
      ≡ key
stored_whole key h g =
    ap
      (λ d. record key {
        domain = d;
        dns_group_name = copy_string dns_group_name_len key.dns_group_name;
      })
      (take_all 255 key.domain (omega arith))
    ∙ ap (λ n. record key { dns_group_name = n }) (take_all 31 key.dns_group_name (omega arith))

is_found-new :
    (key : Key) (bucket : ℕ) (answer : Answer) (cache_data now : ℕ)
    → is_found key bucket
        (new_item key bucket (new_entry (new_info key answer now) cache_data answer.timeout))
      ≡ true
unfolding matches
is_found-new key bucket answer cache_data now =
    rw
      (
        same bucket,
        same key.qtype,
        same key.query_flag,
        same_name_refl 256 key.domain,
        same_bytes_refl 32 key.dns_group_name,
      )
      refl

-- The newest entry is the first that a lookup comes to.
pub find_entry-newest :
    (heap : ℕ → Option Item) (key : Key) (bucket n : ℕ) (answer : Answer) (cache_data now : ℕ)
    → heap n
      ≡ some (new_item key bucket (new_entry (new_info key answer now) cache_data answer.timeout))
    → find_entry heap key bucket (suc n) ≡ some n
unfolding find_entry
find_entry-newest heap key bucket n answer cache_data now e =
    let older : Option ℕ = find_entry heap key bucket n in
    let next : Option Item → Option ℕ = λ o. elim o [
      | none ↦ older
      | some item ↦ if is_found key bucket item then some n else older
    ] in
    ap next e
    ∙ ap (λ b. if b then some n else older) (is_found-new key bucket answer cache_data now)
