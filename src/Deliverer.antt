-- ===== src/Deliverer.antt =====
-- internal/deliverer: the outbound deliverer. Classify.antt, Send.antt, Bounce.antt and
-- Semaphore.antt are its files of those names; Handle.antt is deliverer.go.
pub mod Config
pub mod Classify
pub mod Send
pub mod Bounce
pub mod Semaphore
pub mod Handle
mod Tests
