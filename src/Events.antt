-- ===== src/Events.antt =====
-- What the agents say to each other: src/shrap/common/envelope.py and src/shrap/events.
pub mod Envelope
