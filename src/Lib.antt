-- ===== src/Lib.antt =====
-- smartdns: a local DNS server that answers its clients from several upstream servers (C, under
-- src/). This library models five parts of its core and proves what makes them correct.
--
-- Dns is src/dns.c, the packet codec that the server, the client and the cache share. Dns/Wire has
-- the readers and writers of words (`_dns_read_short` is `read_short`, and so on), Dns/Domain the
-- reader of names with compression pointers (`_dns_get_domain_from_packet`), Dns/Encode the writer
-- of names with its dictionary (`_dns_encode_domain`, `_dns_get_domain_offset`,
-- `_dns_add_domain_dict`), Dns/Question the heads of questions and records (`_dns_add_qr_head`,
-- `_dns_get_qr_head`, `_dns_add_rr_head`), Dns/Head the head of a packet (`_dns_decode_head`,
-- `_dns_encode_head`), and Dns/Records the records that a packet in memory links in its five
-- sections (`_dns_rr_add_end`, `dns_get_rrs_start`, `dns_get_rrs_next`). A packet is the list of
-- its bytes, and a pointer into it is an offset.
--
-- Hpack is src/http_parse/hpack.c, the header compression of HTTP/2 (RFC 7541), under DNS over
-- HTTPS. Hpack/Integer and Hpack/Strings are the two primitive formats, Hpack/Huffman is the
-- decoder of coded strings with its table, Hpack/Table is the static and the dynamic table with
-- eviction and lookup, and Hpack/Header encodes a field and decodes a block
-- (`hpack_encode_header`, `hpack_decode_headers`). The function that the decoder hands each field
-- to is a parameter.
--
-- TimerWheel is src/lib/timer_wheel.c, by which the server, the client and the cache expire
-- things. TimerWheel/Wheel is the state and the calls on a timer (`tw_add_timer`, `tw_mod_timer`,
-- `tw_mod_timer_pending`, `tw_del_timer`), TimerWheel/Run the tick (`_tw_cascade`, `run_timers`).
-- The functions of the timers are a parameter: what they do to the wheel is a list of calls on it,
-- and a call that the source does not guard against is a fault.
--
-- DnsCache is src/dns_cache.c, the cache of answers. DnsCache/Entry is the life of one entry: what
-- `dns_cache_get`, `dns_cache_release`, `_dns_cache_remove`, `_dns_cache_replace`,
-- `dns_cache_update_timer` and `dns_cache_expired` do to its reference count, its place in the
-- cache and its timer (src/timer.c). DnsCache/Entry/Life has the steps that threads can take with
-- it, one locked section at a time, and the worlds that they reach. DnsCache/Table is the cache
-- as a whole: its entries by address, the list in the order of use, lookup, insertion with eviction,
-- replacement, hits and flush, each by what it does to an entry; DnsCache/Table/Threads has threads
-- that call them in any order. The bucket of a key is a parameter, since lib/hash.h, lib/jhash.h and
-- lib/hashtable.h are copied code, and so is what the test of `mem_size` answers, since other
-- threads free data meanwhile. The loop that evicts has 33 rounds in the code too.
--
-- Http2 is src/http_parse/http2.c, the HTTP/2 connections on top of Hpack. Http2/Frame has the
-- frames' heads, Http2/Output `_http2_send_frame` with the buffer of what the peer has not taken,
-- Http2/State the context and its table of streams, Http2/Body the sending of a body under flow
-- control (`_http2_stream_flush_pending_send`), Http2/Control the control frames that are sent,
-- Http2/Receive, Http2/Settings and Http2/Headers the handlers of the frames that come in,
-- Http2/Reader the loop over them (`_http2_process_frames`), and Http2/Start a new context. What
-- `bio_read` and `bio_write` will answer, call by call, are lists in the context, and what was
-- written is a list of bytes.
--
-- Prelude has what the parts share: Boolean tests, lists with native indices, facts on bits, and
-- `Outcome`, the result of a call: `ok`, an error (`fail`), an access out of bounds (`fault`), or
-- no more fuel (`stuck`). In Dns and Hpack every access to a buffer is tested in the model, so a
-- theorem that a call is `ok` or `fail` says that it stays in bounds. In Http2 the heads of frames,
-- settings, increments, and the padding and priority of HEADERS are read with such tests, and a
-- payload is tested as a whole to be in the buffer before it is handed on as a list; what goes out
-- is built as lists. In TimerWheel a fault is a call that would break the lists, or call no function.
--
-- Loops without an end in sight run on fuel, and the theorems say that it is enough: the name
-- reader stops after 33 pointers in a row and each label fills its output, so 34 rounds for each
-- byte of the output do; a round of the header decoder reads a byte at least; a round of eviction
-- drops an entry; a round of the timer loop takes a timer off the work list; a round of a flush
-- sends a byte at least, a round of the reader of frames takes nine, and capacities double. Machine
-- words are native numbers with the wrap-around written out: 64 bits in HPACK integers and jiffies,
-- 32 in the hash of names and in an `int`, 16 in the fields of a packet.
--
-- Not modelled: a malloc that fails, the data of the records and their options, the cache file,
-- sockets, clocks and the threads themselves, the calls by which a client of an HTTP/2 connection
-- writes, reads and closes its streams, and everything of the server and the client above.
pub mod Prelude
pub mod Dns
pub mod Hpack
pub mod TimerWheel
pub mod DnsCache
pub mod Http2
