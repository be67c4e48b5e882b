-- ===== src/Net.antt =====
-- C/net: the servers, the client for poll, and the packets built by hand.
pub mod Epoll
pub mod Poll
pub mod Raw
pub mod Select
