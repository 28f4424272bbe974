-- ===== src/Dns/Encode/Bounds.antt =====
-- `_dns_encode_domain` writes inside of the packet, from its pointer on.
use smartdns_ui.Prelude.{
  ℕ, ◌+◌, ◌-◌, ◌≤◌, ◌<◌, ◌≡◌, refl, sym, ap, ◌∙◌, List, [], ◌∷◌, length, get_elem?, set, length-set,
  get_elem?-set_ne, ltb, leb, ◌==◌, Option, none, some, Outcome, ok, fail, fault, stuck, bit_or,
  ◌/◌, ◌≢◌, inl, inr, ◌%◌, Ensures, Ensures-bind, Ensures-mono, Bool-cases, arith, lt→ltb,
}
use smartdns_ui.Dns.Wire.{write_char, write_short}
use smartdns_ui.Dns.Domain.{get_domain_from_packet}
use smartdns_ui.Dns.Domain.Bounds.{get_domain_from_packet_safe}
use smartdns_ui.Dns.Encode.{
  dict_hash, dns_max_cname_len, Context, DictItem, add_domain_dict, find_hash, check_item, on_hash,
  get_domain_offset, put_pointer, put_root, end_domain, encode_loop, encode_domain,
}

-- The packet that `d` is, and its bytes below `from`, are those of `c`.
pub record Keeps (from : ℕ) (c d : Context) : Type 0 where
  pub same_maxsize : d.maxsize ≡ c.maxsize
  pub same_length : length d.bytes ≡ length c.bytes
  pub same_below : (q : ℕ) → q < from → get_elem? d.bytes q ≡ get_elem? c.bytes q

Keeps-refl : (from : ℕ) (c : Context) → Keeps from c c
Keeps-refl from c = record { same_maxsize = refl; same_length = refl; same_below = λ q h. refl }

Keeps-trans : {from : ℕ} {c d e : Context} → Keeps from c d → Keeps from d e → Keeps from c e
Keeps-trans k l = record {
  same_maxsize = l.same_maxsize ∙ k.same_maxsize;
  same_length = l.same_length ∙ k.same_length;
  same_below = λ q h. l.same_below q h ∙ k.same_below q h;
}

-- One byte at `p`, and the pointer anywhere.
Keeps-set :
    (from : ℕ) (c : Context) (p v t : ℕ)
    → from ≤ p
    → Keeps from c (record c { bytes = set c.bytes p v; ptr = t })
Keeps-set from c p v t h = record {
  same_maxsize = refl;
  same_length = length-set c.bytes p v;
  same_below = λ q l. get_elem?-set_ne c.bytes p q v (λ e. omega arith);
}

-- `_dns_get_domain_offset` touches the dictionary alone.
abbrev Looks : Context → Option ℕ × Context → Type 0
Looks c r = (r.1.bytes ≡ c.bytes) × (r.1.ptr ≡ c.ptr) × (r.1.maxsize ≡ c.maxsize)

Looks-length :
    (c : Context) (r : Option ℕ × Context) → Looks c r → length r.1.bytes ≡ length c.bytes
Looks-length c r l = ap length l.0

Looks-Keeps : (from : ℕ) (c : Context) (r : Option ℕ × Context) → Looks c r → Keeps from c r.1
Looks-Keeps from c r l = record {
  same_maxsize = l.2;
  same_length = ap length l.0;
  same_below = λ q h. ap (λ t. get_elem? t q) l.0;
}

check_item_returns :
    (c : Context) (item : DictItem)
    → c.maxsize ≤ length c.bytes
    → Ensures (λ _. Unit) (check_item c item)
unfolding check_item
check_item_returns c item h =
    go (get_domain_from_packet c.bytes c.maxsize item.pos dns_max_cname_len)
      (get_domain_from_packet_safe c.bytes c.maxsize item.pos dns_max_cname_len h)
  where
    go :
        (r : Outcome (List ℕ × ℕ))
        → Ensures (λ a. (length a.0 < dns_max_cname_len) × (a.1 ≤ c.maxsize)) r
        → Ensures {A = Option ℕ}
            (λ _. Unit)
            (elim r [ ok a ↦ ok (some item.pos) | fail ↦ ok none | fault ↦ fault | stuck ↦ stuck ])
    go (ok a) k = tt
    go fail k = tt
    go fault k = absurd k
    go stuck k = absurd k

on_hash-Looks :
    (c : Context) (hash : ℕ) (o : Option DictItem)
    → c.maxsize ≤ length c.bytes
    → Ensures (Looks c) (on_hash c hash o)
unfolding on_hash add_domain_dict
on_hash-Looks c hash none h = ground arith
on_hash-Looks c hash (some item) h =
    Ensures-bind (λ _. Unit) (Looks c) (check_item c item) _ (check_item_returns c item h)
      (λ a _. (refl, refl, refl))

get_domain_offset-Looks :
    (c : Context) (s : List ℕ)
    → c.maxsize ≤ length c.bytes
    → Ensures (Looks c) (get_domain_offset c s)
unfolding get_domain_offset
get_domain_offset-Looks c [] h = (refl, refl, refl)
get_domain_offset-Looks c (b ∷ s) h =
    on_hash-Looks c (dict_hash (b ∷ s)) (find_hash (dict_hash (b ∷ s)) c.namedict) h

-- What a call that began at `from` promises: `n` bytes written from there, and room behind them.
pub record Wrote (from : ℕ) (c : Context) (r : ℕ × Context) : Type 0 where
  pub kept : Keeps from c r.1
  pub whole_len : r.1.ptr ≡ from + r.0
  pub room : r.1.ptr < r.1.maxsize

-- The loop's state: `ptr_num` is below the pointer, and next to it where the dictionary answered.
record IsRunning (from : ℕ) (c : Context) (ptr_num total_len : ℕ) : Type 0 where
  inside : c.maxsize ≤ length c.bytes
  low : from ≤ ptr_num
  behind : ptr_num < c.ptr
  whole_len : c.ptr ≡ from + total_len

module _ (from : ℕ) where
  put_root-Wrote :
      (c : Context) (n : ℕ)
      → c.maxsize ≤ length c.bytes
      → from ≤ c.ptr
      → c.ptr < c.maxsize
      → c.ptr ≡ from + n
      → Ensures (Wrote from c) (put_root c n)
  unfolding put_root write_char
  put_root-Wrote c n inside low room len =
      rw (lt→ltb c.ptr (length c.bytes) (omega arith))
        (elim (Bool-cases (leb (c.maxsize - (c.ptr + 1)) 0)) [
          | inl e ↦ rw e tt
          | inr e ↦ rw e (record {
            kept = Keeps-set from c c.ptr 0 (c.ptr + 1) low;
            whole_len = omega arith;
            room = ground arith;
          })
        ])

  Wrote-after : {c d : Context} {r : ℕ × Context} → Keeps from c d → Wrote from d r → Wrote from c r
  Wrote-after k w = record { kept = Keeps-trans k w.kept; whole_len = w.whole_len; room = w.room }

  end_domain-Wrote :
      (c : Context) (ptr_num num n : ℕ)
      → IsRunning from c ptr_num n
      → Ensures (Wrote from c) (end_domain c ptr_num num n)
  unfolding end_domain write_char
  end_domain-Wrote c ptr_num num n r = elim (Bool-cases (ltb (c.maxsize - c.ptr) 1)) [
    | inl e ↦ rw e tt
    | inr e ↦
        let v : ℕ = num % 256 in
        let k = Keeps-set from c ptr_num v c.ptr r.low in
        rw (e, lt→ltb ptr_num (length c.bytes) (ground arith))
          (elim (Bool-cases (ltb 1 n)) [
            | inl f ↦ rw f (
                Ensures-mono _ _ (put_root (record c { bytes = set c.bytes ptr_num v }) n)
                  (put_root-Wrote (record c { bytes = set c.bytes ptr_num v }) n
                    (omega (arith, k.same_length, r.inside)) (omega (arith, r.low, r.behind))
                    (ground arith) r.whole_len)
                  (λ a w. Wrote-after k w))
            | inr f ↦ rw f (elim (Bool-cases (leb (c.maxsize - c.ptr) 0)) [
              | inl g ↦ rw g tt
              | inr g ↦ rw g (record { kept = k; whole_len = r.whole_len; room = ground arith })
            ])
          ])
  ]

  put_pointer-Wrote :
      (c : Context) (ptr_num n offset : ℕ)
      → IsRunning from c ptr_num n
      → ptr_num + 1 ≡ c.ptr
      → Ensures (Wrote from c) (put_pointer c ptr_num (n + 1) offset)
  unfolding put_pointer write_short
  put_pointer-Wrote c ptr_num n offset r next = elim (Bool-cases (ltb (c.maxsize - c.ptr) 2)) [
    | inl e ↦ rw e tt
    | inr e ↦
        let hi : ℕ = bit_or 0xc000 offset / 256 % 256 in
        let lo : ℕ = bit_or 0xc000 offset % 256 in
        let c' = record c { bytes = set c.bytes ptr_num hi } in
        rw (e, lt→ltb (ptr_num + 1) (length c.bytes) (ground arith))
          (record {
            kept =
                Keeps-trans (Keeps-set from c ptr_num hi c.ptr r.low)
                  (Keeps-set from c' (ptr_num + 1) lo (c.ptr + 1) (omega (arith, r.low)));
            whole_len = omega (arith, r.whole_len);
            room = ground arith;
          })
  ]

  encode_loop-Wrote :
      (s : List ℕ) (c : Context) (ptr_num num n : ℕ) (o : Option ℕ)
      → IsRunning from c ptr_num n
      → (o ≢ none → ptr_num + 1 ≡ c.ptr)
      → Ensures (Wrote from c) (encode_loop s c ptr_num num n o)
  unfolding encode_loop write_char
  encode_loop-Wrote [] c ptr_num num n o r next = end_domain-Wrote c ptr_num num n r
  encode_loop-Wrote (b ∷ s) c ptr_num num n (some offset) r next =
      elim (Bool-cases (ltb 1 (c.maxsize - c.ptr))) [
        | inl e ↦ rw e (put_pointer-Wrote c ptr_num n offset r (next (λ q. cc)))
        | inr e ↦ rw e (end_domain-Wrote c ptr_num num n r)
      ]
  encode_loop-Wrote (b ∷ s) c ptr_num num n none r next =
      elim (Bool-cases (ltb 1 (c.maxsize - c.ptr))) [
        | inr e ↦ rw e (end_domain-Wrote c ptr_num num n r)
        | inl e ↦ rw e (elim (Bool-cases (b == b'.')) [
          | inl f ↦
              let v : ℕ = num % 256 in
              let d = record c { bytes = set c.bytes ptr_num v; ptr = c.ptr + 1 } in
              let k = Keeps-set from c ptr_num v (c.ptr + 1) r.low in
              rw (f, lt→ltb ptr_num (length c.bytes) (ground arith))
                (Ensures-bind (Looks d) (Wrote from c) (get_domain_offset d s) _
                  (get_domain_offset-Looks d s (omega (arith, k.same_length, r.inside)))
                  (λ a l.
                    Ensures-mono _ _ (encode_loop s a.1 c.ptr 0 (n + 1) a.0)
                      (encode_loop-Wrote s a.1 c.ptr 0 (n + 1) a.0
                        (record {
                          inside = omega (arith, Looks-length d a l, l.2, k.same_length, r.inside);
                          low = omega (arith, r.low, r.behind);
                          behind = omega (arith, l.1);
                          whole_len = omega (arith, l.1, r.whole_len);
                        })
                        (λ _. sym l.1))
                      (λ _ w. Wrote-after (Keeps-trans k (Looks-Keeps from d a l)) w)))
          | inr f ↦
              let v : ℕ = b % 256 in
              let k = Keeps-set from c c.ptr v (c.ptr + 1) (omega (arith, r.low, r.behind)) in
              let d = record c { bytes = set c.bytes c.ptr v; ptr = c.ptr + 1 } in
              rw (f, lt→ltb c.ptr (length c.bytes) (ground arith))
                (Ensures-mono _ _ (encode_loop s d ptr_num (num + 1) (n + 1) none)
                  (encode_loop-Wrote s d ptr_num (num + 1) (n + 1) none
                    (record {
                      inside = omega (arith, k.same_length, r.inside);
                      low = r.low;
                      behind = omega (arith, r.behind);
                      whole_len = omega (arith, r.whole_len);
                    })
                    (λ q. absurd (q refl)))
                  (λ _ w. Wrote-after k w))
        ])
      ]

-- `_dns_encode_domain` on a packet whose `maxsize` bytes are there, for every domain and wherever
-- the pointer stands: the call returns without an access outside of the packet, also where it
-- decodes an entry of the dictionary. When it reports a length, it has moved the pointer by just
-- that length and there is still room behind it; the bytes in front of where the pointer stood,
-- the size of the packet and `maxsize` are unchanged.
pub encode_domain-Wrote :
    (c : Context) (domain : List ℕ)
    → c.maxsize ≤ length c.bytes
    → Ensures (Wrote c.ptr c) (encode_domain c domain)
unfolding encode_domain
encode_domain-Wrote c domain inside =
    let d = record c { ptr = c.ptr + 1 } in
    Ensures-bind (Looks d) (Wrote c.ptr c) (get_domain_offset d domain) _
      (get_domain_offset-Looks d domain inside)
      (λ a l.
        Ensures-mono (Wrote c.ptr a.1) (Wrote c.ptr c) (encode_loop domain a.1 c.ptr 0 1 a.0)
          (encode_loop-Wrote c.ptr domain a.1 c.ptr 0 1 a.0
            (record {
              inside = omega (arith, Looks-length d a l, l.2);
              low = omega arith;
              behind = omega (arith, l.1);
              whole_len = l.1;
            })
            (λ _. sym l.1))
          (λ _ w.
            let k = Looks-Keeps c.ptr d a l in
            Wrote-after c.ptr
              (record {
                same_maxsize = k.same_maxsize;
                same_length = k.same_length;
                same_below = k.same_below;
              })
              w))
