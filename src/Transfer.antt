-- ===== src/Transfer.antt =====
-- Transfers of whole blocks between the router interface of the processor, routerinterface.cc, and the
-- network interface of an accelerator, accelerator.cc: what the one sends is put into the queue of the
-- other, in its order. The routers in between are the subject of Router.
mod Tests
pub mod Write
pub mod Read
pub mod Notify
