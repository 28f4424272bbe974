-- ===== src/DnsCache/Table.antt =====
-- src/dns_cache.c: the cache as a whole, its hash table, its list and its counters. What a call does
-- to one entry is of `DnsCache.Entry`. The addresses of the entries are numbers in the order in
-- which they were allocated; malloc does not fail. The hash functions of lib/hash.h with the mask of
-- lib/hashtable.h are a parameter: the bucket of a key.
pub mod Heap
pub mod Kept
pub mod Calls
pub mod Find
pub mod Moves
pub mod Insert
pub mod Threads
mod Runs
use smartdns_ui.Prelude.{
  ℕ, zero, suc, ◌+◌, ◌-◌, ◌^◌, Bool, true, false, ◌&&◌, ◌||◌, not, List, [], ◌∷◌, ◌++◌, Option,
  none, some, ltb, leb, ◌==◌, if◌then◌else◌, Outcome, ok, fail, fault, ◌>>=◌, take, is_positive,
  lt32, add32, sub32, same_name, same_bytes,
}
use smartdns_ui.Dns.Encode.{dns_max_cname_len}
use smartdns_ui.DnsCache.Entry.{
  Info, Entry, Store, Answer, dns_cache_get, dns_cache_release, remove, replace, update_timer,
  insert, at_least_min,
}

-- `struct dns_cache_key`
pub record Key : Type 0 where
  pub domain : List ℕ
  pub qtype : ℕ
  pub dns_group_name : List ℕ
  pub query_flag : ℕ

-- `struct dns_cache`: its entry, the rest of its `info`, and the bucket that its `node` is in.
pub record Item : Type 0 where
  pub entry : Entry
  pub domain : List ℕ
  pub dns_group_name : List ℕ
  pub hitnum : ℕ
  pub hitnum_update_add : ℕ
  pub bucket : ℕ

-- `struct dns_cache_head` with the entries that are allocated, below `next`. A bucket's chain is of
-- the entries in it that are listed, the newest first; `cache_list` has their addresses. `put` is
-- the data that was put.
pub record Table : Type 0 where
  pub heap : ℕ → Option Item
  pub next : ℕ
  pub cache_list : List ℕ
  pub num : ℕ
  pub size : ℕ
  pub put : List ℕ
  pub check_count : ℕ
  pub hit_count : ℕ

-- `dns_cache_init`
abbrev pub dns_cache_init : ℕ → ℕ → Table
dns_cache_init size mem_size = record {
  heap = λ a. none;
  next = 0;
  cache_list = [];
  num = 0;
  size = if is_positive mem_size then 2 ^ 31 - 1 else size;
  put = [];
  check_count = 0;
  hit_count = 0;
}

abbrev pub set_item : (ℕ → Option Item) → ℕ → Option Item → ℕ → Option Item
set_item heap a item b = if b == a then item else heap b

-- `list_del` of an address
abbrev pub list_del : ℕ → List ℕ → List ℕ
list_del a [] = []
list_del a (b ∷ addresses) = if b == a then addresses else b ∷ list_del a addresses

abbrev pub is_listed : Store → Bool
is_listed s = elim s.entry [ none ↦ false | some e ↦ e.listed ]

-- The table once a call on the entry at `a` is over: an entry that is no longer listed is off the
-- list, and one that is freed is not counted.
abbrev pub commit : Table → ℕ → Item → Store → Table
commit t a item s = record t {
  heap =
      set_item t.heap a (elim s.entry [ none ↦ none | some e ↦ some (record item { entry = e }) ]);
  cache_list = if is_listed s then t.cache_list else list_del a t.cache_list;
  num = elim s.entry [ none ↦ t.num - 1 | some e ↦ t.num ];
  put = s.put;
}

-- A call on the entry at an address
unfoldable pub on_entry : (Store → Outcome Store) → ℕ → Table → Outcome Table
on_entry f a t = elim (t.heap a) [
  | none ↦ fault
  | some item ↦ f (record { entry = some item.entry; put = t.put }) >>= λ s. ok (commit t a item s)
]

-- `list_del` and `list_add_tail`
abbrev pub to_tail : ℕ → Table → Table
to_tail a t = record t { cache_list = list_del a t.cache_list ++ a ∷ [] }

-- `DNS_GROUP_NAME_LEN`
abbrev pub dns_group_name_len : ℕ
dns_group_name_len = 32

-- The tests of the loop in `_dns_cache_lookup`
unfoldable pub matches : Key → Item → Bool
unfolding same_name same_bytes
matches key item =
    (item.entry.info.qtype == key.qtype)
    && same_name dns_max_cname_len key.domain item.domain
    && same_bytes dns_group_name_len key.dns_group_name item.dns_group_name
    && (key.query_flag == item.entry.info.query_flag)

-- `hash_table_for_each_possible` with those tests, over the addresses below `n`
unfoldable pub find_entry : (ℕ → Option Item) → Key → ℕ → ℕ → Option ℕ
unfolding matches
find_entry heap key bucket zero = none
find_entry heap key bucket (suc n) =
    let rest = find_entry heap key bucket n in
    elim (heap n) [
      | none ↦ rest
      | some item ↦
          if item.entry.listed && (item.bucket == bucket) && matches key item then some n else rest
    ]

-- `DNS_CACHE_MAX_HITNUM`, `DNS_CACHE_HITNUM_STEP`, `DNS_CACHE_HITNUM_STEP_MAX`
abbrev pub dns_cache_max_hitnum : ℕ
dns_cache_max_hitnum = 6000

abbrev pub dns_cache_hitnum_step : ℕ
dns_cache_hitnum_step = 3

abbrev pub dns_cache_hitnum_step_max : ℕ
dns_cache_hitnum_step_max = 6

-- `dns_cache_delete`
abbrev pub dns_cache_delete : ℕ → Table → Outcome Table
dns_cache_delete a t = on_entry remove a t

-- `dns_cache_flush`, with the entries that are left to visit
unfoldable pub remove_all : List ℕ → Table → Outcome Table
unfolding on_entry
remove_all [] t = ok t
remove_all (a ∷ addresses) t = on_entry remove a t >>= λ t'. remove_all addresses t'

unfoldable pub dns_cache_flush : Table → Outcome Table
unfolding remove_all
dns_cache_flush t = remove_all t.cache_list t

-- `hitnum` after a hit
abbrev pub add_hits : Item → ℕ
add_hits item =
    let hitnum = add32 item.hitnum item.hitnum_update_add in
    if lt32 dns_cache_max_hitnum hitnum then dns_cache_max_hitnum else hitnum

abbrev pub hit : Item → Item
hit item = record item {
  hitnum = add_hits item;
  hitnum_update_add =
      if lt32 item.hitnum_update_add dns_cache_hitnum_step_max
      then add32 item.hitnum_update_add 1
      else item.hitnum_update_add;
  entry = record item.entry { info = record item.entry.info { is_visited = 1 } };
}

-- `dns_cache_update`
unfoldable pub dns_cache_update : ℕ → Table → Outcome Table
dns_cache_update a t = elim (t.heap a) [
  | none ↦ fault
  | some item ↦ ok (
      if item.entry.listed
      then to_tail a (record t { heap = set_item t.heap a (some (hit item)) })
      else t)
]

-- The changes of `dns_cache_hitnum_dec_get`
abbrev pub take_hit : Item → Item
take_hit item = record item {
  hitnum = sub32 item.hitnum 1;
  hitnum_update_add =
      if lt32 dns_cache_hitnum_step item.hitnum_update_add
      then sub32 item.hitnum_update_add 1
      else item.hitnum_update_add;
}

-- `dns_cache_hitnum_dec_get`
unfoldable pub dns_cache_hitnum_dec_get : ℕ → Table → Outcome (ℕ × Table)
dns_cache_hitnum_dec_get a t = elim (t.heap a) [
  | none ↦ fault
  | some item ↦
      ok ((take_hit item).hitnum, record t { heap = set_item t.heap a (some (take_hit item)) })
]

-- The lines of `_dns_cache_replace` under the lock; the result is whether the entry is listed.
unfoldable pub replace_at : Answer → ℕ → ℕ → Table → Outcome (Bool × Table)
unfolding on_entry
replace_at answer now a t = elim (t.heap a) [
  | none ↦ fault
  | some item ↦ on_entry (replace answer now) a t >>= λ t'.
      ok (if item.entry.listed then (true, to_tail a t') else (false, t'))
]

-- The lines of `dns_cache_update_timer` under the lock
unfoldable pub update_timer_at : ℕ → ℕ → Table → Outcome (Bool × Table)
unfolding on_entry
update_timer_at timeout a t = elim (t.heap a) [
  | none ↦ fault
  | some item ↦ on_entry (update_timer timeout) a t >>= λ t'. ok (item.entry.listed, t')
]

-- The entries that a new one drives out: `mem i` is what other threads decide when `i`
-- more rounds can follow: whether `mem_size` is over its limit, or `num` still counts an entry that
-- another thread has freed, since `_dns_cache_delete` counts it off behind the lock.
unfoldable pub release_extra : ℕ → (ℕ → Bool) → Table → Outcome Table
unfolding on_entry
release_extra zero mem t = ok t
release_extra (suc n) mem t =
    let removed : Outcome Table = elim t.cache_list [
      | [] ↦ ok t
      | a ∷ addresses ↦ on_entry remove a t >>= λ t'. release_extra n mem t'
    ] in
    if mem n || ltb t.size t.num then removed else ok t

-- `safe_strncpy` to an array of `n` bytes
abbrev pub copy_string : ℕ → List ℕ → List ℕ
copy_string n s = take (n - 1) s

-- The key as `dns_cache_insert` stores it
abbrev pub stored : Key → Key
stored key = record key {
  domain = copy_string dns_max_cname_len key.domain;
  dns_group_name = copy_string dns_group_name_len key.dns_group_name;
}

-- What `dns_cache_insert` makes of its arguments
abbrev pub new_info : Key → Answer → ℕ → Info
new_info key a now = record {
  rcode = a.rcode;
  qtype = key.qtype;
  query_flag = key.query_flag;
  ttl = at_least_min a.ttl;
  speed = a.speed;
  timeout = a.timeout;
  is_visited = 1;
  insert_time = now;
  replace_time = now;
}

-- `info` of the new entry beside what `new_info` has, and its bucket
abbrev pub new_item : Key → ℕ → Entry → Item
new_item key bucket e = record {
  entry = e;
  domain = key.domain;
  dns_group_name = key.dns_group_name;
  hitnum = 3;
  hitnum_update_add = dns_cache_hitnum_step;
  bucket = bucket;
}

module _ (bucket_of : Key → ℕ) where
  -- `_dns_cache_lookup`
  unfoldable pub lookup : Key → Table → Outcome (Option ℕ × Table)
  unfolding find_entry on_entry
  lookup key t = elim (find_entry t.heap key (bucket_of key) t.next) [
    | none ↦ ok (none, t)
    | some a ↦ on_entry dns_cache_get a t >>= λ t'. ok (some a, t')
  ]

  unfoldable pub dns_cache_lookup : Key → Table → Outcome (Option ℕ × Table)
  unfolding lookup
  dns_cache_lookup key t =
      let found : Outcome (Option ℕ × Table) =
        lookup key (record t { check_count = t.check_count + 1 }) >>= λ r. elim r.0 [
          | none ↦ ok r
          | some a ↦ ok (some a, record r.1 { hit_count = r.1.hit_count + 1 })
        ] in
      if is_positive t.size then found else ok (none, t)

  -- `dns_cache_replace`, with `key`'s type and flag in its answer; the result is whether it is 0.
  unfoldable pub dns_cache_replace : Key → Answer → ℕ → Table → Outcome (Bool × Table)
  unfolding lookup replace_at on_entry
  dns_cache_replace key answer now t =
      let a = record answer { qtype = key.qtype; query_flag = key.query_flag } in
      let replaced : Outcome (Bool × Table) = lookup key t >>= λ r. elim r.0 [
        | none ↦ ok (false, r.1)
        | some p ↦
            replace_at a now p r.1 >>= λ q. on_entry dns_cache_release p q.1 >>= λ t'. ok (q.0, t')
      ] in
      let dropped : List ℕ = elim answer.cache_data [ none ↦ [] | some d ↦ d ∷ [] ] in
      if is_positive t.size then replaced else ok (true, record t { put = t.put ++ dropped })

  unfoldable pub dns_cache_update_timer : Key → ℕ → Table → Outcome (Bool × Table)
  unfolding lookup update_timer_at on_entry
  dns_cache_update_timer key timeout t = lookup key t >>= λ r. elim r.0 [
    | none ↦ ok (false, r.1)
    | some p ↦ update_timer_at timeout p r.1 >>= λ q.
        on_entry dns_cache_release p q.1 >>= λ t'. ok (q.0, t')
  ]

  -- `_dns_cache_remove_by_domain`
  unfoldable pub remove_by_domain : Key → Table → Outcome Table
  unfolding find_entry on_entry
  remove_by_domain key t = elim (find_entry t.heap key (bucket_of key) t.next) [
    | none ↦ ok t
    | some a ↦ on_entry remove a t
  ]

  -- The second section under the lock of `_dns_cache_insert`, of a key whose strings are copied
  unfoldable pub add_item : Key → Info → ℕ → ℕ → (ℕ → Bool) → Table → Outcome Table
  unfolding release_extra insert
  add_item key info cache_data timeout mem t = do
    t₂ ← release_extra 33 mem (record t { num = t.num + 1 })
    s ← insert info cache_data timeout
    elim s.entry [
      | none ↦ fault
      | some e ↦ ok (record t₂ {
        heap = set_item t₂.heap t₂.next (some (new_item key (bucket_of key) e));
        next = suc t₂.next;
        cache_list = t₂.cache_list ++ t₂.next ∷ [];
      })
    ]

  -- `_dns_cache_insert`
  unfoldable pub insert_item : Key → Info → ℕ → ℕ → (ℕ → Bool) → Table → Outcome Table
  unfolding remove_by_domain add_item
  insert_item key info cache_data timeout mem t =
      remove_by_domain key t >>= λ t₁. add_item key info cache_data timeout mem t₁

  -- `dns_cache_insert` of data, at the time `now`
  unfoldable pub dns_cache_insert : Key → Answer → ℕ → ℕ → (ℕ → Bool) → Table → Outcome Table
  unfolding insert_item
  dns_cache_insert key answer cache_data now mem t =
      let inserted : Outcome Table =
        insert_item (stored key) (new_info key answer now) cache_data answer.timeout mem t in
      if is_positive t.size then inserted else ok (record t { put = t.put ++ cache_data ∷ [] })
