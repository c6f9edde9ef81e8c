-- ===== src/Dns.antt =====
-- main/dns_sinkhole.c: the serve path of a sinkhole node. Question parses a query, Match walks the
-- domain's parents through the blocklist, Reply builds the refusal and relays an upstream answer,
-- Cache keeps recent answers, Serve is the serve loop, Socket opens its sockets.
pub mod Question
pub mod Match
pub mod Reply
pub mod Cache
pub mod Serve
pub mod Socket
