-- ===== src/Dns/Question.antt =====
-- src/dns.c: the heads of a question and of a record, `_dns_add_qr_head` and `_dns_add_rr_head`
-- behind the name that `_dns_encode_domain` writes, and `_dns_get_qr_head`.
pub mod Bounds
use smartdns_ui.Prelude.{ℕ, ◌+◌, ◌-◌, ◌*◌, List, ltb, Outcome, ok, fail, ◌>>=◌, ◌>>◌, fail_if}
use smartdns_ui.Dns.Wire.{read_short, write_short, write_int}
use smartdns_ui.Dns.Domain.{get_domain_from_packet}
use smartdns_ui.Dns.Encode.{Context, encode_domain}

-- The length that was written, and the context.
unfoldable pub add_qr_head : Context → List ℕ → ℕ → ℕ → Outcome (ℕ × Context)
add_qr_head c domain qtype qclass = do
  (ret, d) ← encode_domain c domain
  fail_if (ltb (d.maxsize - d.ptr) 4)
  (b₁, p₁) ← write_short d.bytes d.ptr qtype
  (b₂, p₂) ← write_short b₁ p₁ qclass
  ok (ret + 4, record d { bytes = b₂; ptr = p₂ })

unfoldable pub add_rr_head : Context → List ℕ → ℕ → ℕ → ℕ → ℕ → Outcome (ℕ × Context)
unfolding add_qr_head
add_rr_head c domain qtype qclass ttl rr_len = do
  (len, d) ← add_qr_head c domain qtype qclass
  fail_if (ltb (d.maxsize - d.ptr) 6)
  (b₁, p₁) ← write_int d.bytes d.ptr ttl
  (b₂, p₂) ← write_short b₁ p₁ rr_len
  ok (len + 6, record d { bytes = b₂; ptr = p₂ })

-- The name, the type and the class, and the pointer behind them.
unfoldable pub get_qr_head : Context → ℕ → Outcome (List ℕ × ℕ × ℕ × ℕ)
get_qr_head c maxsize = do
  (domain, ptr) ← get_domain_from_packet c.bytes c.maxsize c.ptr maxsize
  fail_if (ltb (c.maxsize - ptr) 4)
  (qtype, p₁) ← read_short c.bytes ptr
  (qclass, p₂) ← read_short c.bytes p₁
  ok (domain, qtype, qclass, p₂)
