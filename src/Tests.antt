-- ===== src/Tests.antt =====
-- Concrete runs of the models, one module per part, and each theorem at a concrete input.
mod Shutdown
mod Slots
mod Texts
mod Opening
mod Receive
mod Create
mod Events
mod Status
mod Requests
mod Returns
mod Frames
mod Stream
mod Streams
mod Health
mod Nuc
mod Owners
