-- ===== src/DnsCache/Entry.antt =====
-- src/dns_cache.c: one `struct dns_cache`, its reference count, and what the calls on the cache do
-- to it. A call is cut where it takes or drops the lock, since other threads run there. The hash
-- table and the list hold an entry together: `listed`. Its timer is `pending` while the timer wheel
-- links it. `cache_data` is the address of the data. An `int` is its 32-bit word, and `now` is what
-- `time` gives.
pub mod Life
pub mod Keeps
pub mod Safe
pub mod Retry
use smartdns_ui.Prelude.{
  ℕ, ◌+◌, ◌-◌, ◌*◌, ◌^◌, Bool, true, false, ◌||◌, List, [], ◌∷◌, ◌++◌, Option, none, some, ltb, leb,
  ◌==◌, if◌then◌else◌, Outcome, ok, fault, ◌>>=◌,
}

-- `struct dns_cache_info`, of which `dns_cache_replace` sets these
pub record Info : Type 0 where
  pub rcode : ℕ
  pub qtype : ℕ
  pub query_flag : ℕ
  pub ttl : ℕ
  pub speed : ℕ
  pub timeout : ℕ
  pub is_visited : ℕ
  pub insert_time : ℕ
  pub replace_time : ℕ

-- `struct dns_cache`
pub record Entry : Type 0 where
  pub ref : ℕ
  pub listed : Bool
  pub pending : Bool
  pub expires : ℕ
  pub info : Info
  pub cache_data : ℕ

-- The memory of the entry, `none` once it is freed, and the data that was put, in order.
pub record Store : Type 0 where
  pub entry : Option Entry
  pub put : List ℕ

-- A use of the entry, which is a fault once it is freed.
abbrev pub use_entry {ℓ} : {A : Type ℓ} → Store → (Entry → Outcome A) → Outcome A
use_entry s f = elim s.entry [ none ↦ fault | some e ↦ f e ]

abbrev pub write : Store → Entry → Store
write s e = record s { entry = some e }

-- `_dns_cache_delete`
abbrev pub delete : Store → Entry → Store
delete s e = record { entry = none; put = s.put ++ e.cache_data ∷ [] }

-- `dns_cache_get`; `BUG` is a fault
abbrev pub dns_cache_get : Store → Outcome Store
dns_cache_get s =
    use_entry s (λ e. if e.ref + 1 == 1 then fault else ok (write s (record e { ref = e.ref + 1 })))

-- `dns_cache_release` of an entry
unfoldable pub dns_cache_release : Store → Outcome Store
dns_cache_release s = use_entry s (λ e.
    if ltb 1 e.ref
    then ok (write s (record e { ref = e.ref - 1 }))
    else if e.ref == 0
    then fault
    else ok (delete s e))

-- `_dns_cache_remove`
unfoldable pub remove : Store → Outcome Store
unfolding dns_cache_release
remove s = use_entry s (λ e.
    let off = record e { listed = false } in
    let deleted : Outcome Store = do
      s' ← dns_cache_release (write s (record off { pending = false }))
      dns_cache_release s'
    in if e.listed then (if e.pending then deleted else dns_cache_release (write s off)) else ok s)

-- `dns_timer_mod`, with the wheel that `dns_timer_init` made at the start: the deadline is set even if
-- the timer is not pending, and then the result is 0. `expires` here is the timeout as it is given,
-- in ticks from the call on. The wheel's lock is taken inside of the cache's, so that the two are one
-- section.
abbrev pub dns_timer_mod : Store → Entry → ℕ → ℕ × Store
dns_timer_mod s e timeout = (if e.pending then 1 else 0, write s (record e { expires = timeout }))

-- `dns_timer_add`: linking a timer twice would break the lists of the wheel.
abbrev pub dns_timer_add : Store → Outcome Store
dns_timer_add s =
    use_entry s (λ e. if e.pending then fault else ok (write s (record e { pending = true })))

-- The last lines under the lock of `_dns_cache_replace` and of `dns_cache_update_timer`.
unfoldable pub rearm : Store → Entry → ℕ → Outcome Store
rearm s e timeout =
    let (mod_ret, s₁) = dns_timer_mod s e timeout in
    let added : Outcome Store = do
      s₂ ← dns_cache_get s₁
      s₃ ← use_entry s₂ (λ e₂. ok (write s₂ (record e₂ { expires = timeout })))
      dns_timer_add s₃
    in if mod_ret == 0 then added else ok s₁

-- `_dns_cache_insert` on its new entry
unfoldable pub insert : Info → ℕ → ℕ → Outcome Store
insert info cache_data timeout = do
  let s : Store = record {
    entry = some (record {
      ref = 1;
      listed = true;
      pending = false;
      expires = timeout;
      info = info;
      cache_data = cache_data;
    });
    put = [];
  }
  s' ← dns_cache_get s
  dns_timer_add s'

-- `if (ttl < DNS_CACHE_TTL_MIN)`
abbrev pub at_least_min : ℕ → ℕ
at_least_min ttl = if ltb ttl 1 || leb (2 ^ 31) ttl then 1 else ttl

-- The arguments of `dns_cache_replace`.
pub record Answer : Type 0 where
  pub qtype : ℕ
  pub query_flag : ℕ
  pub rcode : ℕ
  pub ttl : ℕ
  pub speed : ℕ
  pub timeout : ℕ
  pub update_time : Bool
  pub cache_data : Option ℕ

abbrev pub answer_info : Info → Answer → ℕ → Info
answer_info info a now = record {
  rcode = a.rcode;
  qtype = a.qtype;
  query_flag = a.query_flag;
  ttl = at_least_min a.ttl;
  speed = a.speed;
  timeout = a.timeout;
  is_visited = 1;
  insert_time = if a.update_time then now else info.insert_time;
  replace_time = now;
}

abbrev pub new_data : Entry → Option ℕ → ℕ
new_data e none = e.cache_data
new_data e (some d) = d

-- `_dns_cache_replace` from the lock to the put of the old data, on the entry that it looked up.
unfoldable pub replace : Answer → ℕ → Store → Outcome Store
unfolding rearm
replace a now s = use_entry s (λ e.
    let e' = record e { info = answer_info e.info a now; cache_data = new_data e a.cache_data } in
    let old : List ℕ = elim a.cache_data [ none ↦ [] | some d ↦ e.cache_data ∷ [] ] in
    let replaced : Outcome Store = do
      s' ← rearm s e' a.timeout
      ok (record s' { put = s'.put ++ old })
    in if e.listed then replaced else ok s)

-- `dns_cache_update_timer` under the lock
unfoldable pub update_timer : ℕ → Store → Outcome Store
unfolding rearm
update_timer timeout s = use_entry s (λ e. if e.listed then rearm s e timeout else ok s)

-- What the cache's `timeout_callback` answers.
pub data Action : Type 0 where
  action_ok : Action
  action_del : Action
  action_retry : Action
  action_update : Action

abbrev pub dns_cache_fail_timeout : ℕ
dns_cache_fail_timeout = 60 * 5

-- The `switch` of `dns_cache_expired`; the result is `mod_ret`.
unfoldable pub expired_action : Action → Store → Outcome (ℕ × Store)
unfolding remove
expired_action action_ok s = ok (0, s)
expired_action action_del s = do s' ← remove s; ok (0, s')
expired_action action_retry s = use_entry s (λ e. ok (dns_timer_mod s e dns_cache_fail_timeout))
expired_action action_update s = use_entry s (λ e. ok (dns_timer_mod s e e.info.timeout))

-- `dns_cache_expired`, with the action that the callback answered
unfoldable pub dns_cache_expired : Action → Store → Outcome Store
unfolding expired_action dns_cache_release
dns_cache_expired action s = do
  r ← expired_action action s
  if r.0 == 0 then dns_cache_release r.1 else ok r.1
