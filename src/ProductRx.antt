-- ===== src/ProductRx.antt =====
-- native/src/rf_product_rx.cpp: an RF ProductRxEndpoint, which receives products by a callback of
-- the provider, queues them, and hands them to Receive, until it is closed.
pub mod Callback
pub mod Interleaving
pub mod Queue
pub mod Counters
pub mod Shutdown
pub mod Body
pub mod Create
pub mod Request
pub mod Ownership
pub mod Claims
pub mod Settle
pub mod Abandoned
pub mod Submit
pub mod Admit
pub mod Entry
pub mod Twice
pub mod Pointing
pub mod Event
pub mod Views
pub mod Points
pub mod Copies
pub mod Visible
