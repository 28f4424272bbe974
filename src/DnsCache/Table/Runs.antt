-- ===== src/DnsCache/Table/Runs.antt =====
-- Concrete runs of the cache of src/dns_cache.c, and its theorems at concrete inputs.
use smartdns_ui.Prelude.{
  ◌++◌, ℕ, ◌%◌, ◌≡◌, refl, ap, is_positive, take, fail, fault, stuck, Bool, true, false, Option,
  none, some, List, [], ◌∷◌, length, Outcome, ok, Ensures, arith,
}
use smartdns_ui.DnsCache.Entry.{Answer, replace, action_del}
use smartdns_ui.DnsCache.Table.{
  stored, remove_by_domain, Key, new_info, new_item, dns_cache_lookup, dns_cache_insert,
  dns_cache_flush,
}
use smartdns_ui.DnsCache.Table.Insert.Oldest.{kept, Inserts, new_entry}
use smartdns_ui.DnsCache.Table.Threads.{
  Cache, ThreadCall, look, remove_old, add_answer, set_answer, drop_reference, fire, act,
  end_expired, calls, new_cache,
}
use smartdns_ui.DnsCache.Table.Threads.Entries.{IsCache}
use smartdns_ui.DnsCache.Table.Threads.Whole.{
  Looks, Flushes, dns_cache_lookup-Found, dns_cache_flush-Flushes,
}
use smartdns_ui.DnsCache.Table.Threads.Safe.{
  dns_cache_insert-Inserts, calls-IsCache, new_cache-IsCache,
}
use smartdns_ui.DnsCache.Table.Threads.Answers.{Answered, dns_cache_lookup-dns_cache_insert}

-- A hash that puts the keys in four buckets by the length of the domain
abbrev bucket_of : Key → ℕ
bucket_of key = length key.domain % 4

abbrev key_of : List ℕ → Key
key_of domain = record { domain = domain; qtype = 1; dns_group_name = []; query_flag = 0 }

abbrev answer : Answer
answer = record {
  qtype = 1;
  query_flag = 0;
  rcode = 0;
  ttl = 60;
  speed = 0;
  timeout = 60;
  update_time = true;
  cache_data = none;
}

abbrev memory : ℕ → Bool
memory n = false

abbrev insert_of : List ℕ → List ThreadCall
insert_of domain = remove_old (key_of domain) ∷ add_answer (key_of domain) answer 7 100 memory ∷ []

-- Three answers in a cache of two, of which the second key comes twice and the first is looked up
abbrev busy : List ThreadCall
busy =
    insert_of (97 ∷ [])
    ++ insert_of (98 ∷ [])
    ++ (look (key_of (65 ∷ [])) ∷ [])
    ++ insert_of (66 ∷ [])
    ++ insert_of (99 ∷ [])
    ++ (set_answer 0 answer 101 ∷ drop_reference 0 ∷ fire 3 ∷ act 3 action_del ∷ end_expired 3 ∷ [])

-- The list and the number of entries in the end, if a run has one
abbrev ends_with : Outcome Cache → Option (List ℕ × ℕ)
ends_with o = elim o [ ok c ↦ some (c.table.cache_list, c.table.num) | _ ↦ none ]

busy_ends : ends_with (calls bucket_of (new_cache 2 0) busy) ≡ some ([], 0)
unfolding calls replace
busy_ends = refl

-- The first entry is held, so that both old ones have to go for the last.
held_goes : ends_with (calls bucket_of (new_cache 2 0) (take 9 busy)) ≡ some (3 ∷ [], 2)
unfolding calls
held_goes = refl

-- The cache after two answers
abbrev stocked : Cache
stocked = elim (calls bucket_of (new_cache 2 0) (take 4 busy)) [ ok c ↦ c | _ ↦ new_cache 2 0 ]

stocked-IsCache : IsCache stocked
stocked-IsCache =
    go (calls bucket_of (new_cache 2 0) (take 4 busy))
      (calls-IsCache bucket_of (new_cache 2 0) (take 4 busy) (new_cache-IsCache 2 0))
  where
    go : (o : Outcome Cache) → Ensures IsCache o → IsCache (elim o [ ok c ↦ c | _ ↦ new_cache 2 0 ])
    go (ok c) h = h
    go fail h = new_cache-IsCache 2 0
    go fault h = absurd h
    go stuck h = absurd h

stocked_has : (stocked.table.size ≡ 2) × (stocked.table.cache_list ≡ 0 ∷ 1 ∷ [])
unfolding calls
stocked_has = (refl, refl)

calls-IsCache_example : Ensures IsCache (calls bucket_of (new_cache 2 0) busy)
calls-IsCache_example = calls-IsCache bucket_of (new_cache 2 0) busy (new_cache-IsCache 2 0)

dns_cache_insert-Inserts_example :
    Inserts stocked.users
      (kept bucket_of (stored (key_of (66 ∷ []))) stocked.table)
      memory
      (new_item
        (stored (key_of (66 ∷ [])))
        (bucket_of (stored (key_of (66 ∷ []))))
        (new_entry (new_info (key_of (66 ∷ [])) answer 100) 7 60))
      stocked.table
      (remove_by_domain bucket_of (stored (key_of (66 ∷ []))) stocked.table)
      (dns_cache_insert bucket_of (key_of (66 ∷ [])) answer 7 100 memory stocked.table)
dns_cache_insert-Inserts_example =
    dns_cache_insert-Inserts bucket_of (key_of (66 ∷ [])) answer 7 100 memory stocked.users
      stocked.table stocked-IsCache.0 (ap is_positive stocked_has.0) stocked-IsCache.1

dns_cache_lookup-dns_cache_insert_example :
    Answered stocked.table.next
      (new_item (key_of (97 ∷ [])) 1 (new_entry (new_info (key_of (97 ∷ [])) answer 100) 7 60))
      (dns_cache_lookup bucket_of (key_of (97 ∷ [])))
      (dns_cache_insert bucket_of (key_of (97 ∷ [])) answer 7 100 memory stocked.table)
dns_cache_lookup-dns_cache_insert_example =
    dns_cache_lookup-dns_cache_insert bucket_of (key_of (97 ∷ [])) answer 7 100 memory stocked.users
      stocked.table stocked-IsCache.0 (ap is_positive stocked_has.0) stocked-IsCache.1 (omega arith)
      (omega arith)

dns_cache_lookup-Found_example :
    Looks
      (key_of (65 ∷ []))
      1
      stocked.users
      stocked.table
      (dns_cache_lookup bucket_of (key_of (65 ∷ [])) stocked.table)
dns_cache_lookup-Found_example =
    dns_cache_lookup-Found bucket_of (key_of (65 ∷ [])) stocked.users stocked.table
      stocked-IsCache.0 (ap is_positive stocked_has.0)

dns_cache_flush-Flushes_example :
    Flushes stocked.users stocked.table (dns_cache_flush stocked.table)
dns_cache_flush-Flushes_example =
    dns_cache_flush-Flushes stocked.users stocked.table stocked-IsCache.0
