-- ===== src/Queue.antt =====
-- The message buffers of libdsys/queue.c and libdsys/queue.h.
pub mod Wire
pub mod Memory
pub mod Fifo
pub mod Mc121
pub mod Nmc121
pub mod Nmc12m
pub mod Farmn
pub mod Mc12m
mod Tests
