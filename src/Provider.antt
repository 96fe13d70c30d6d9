-- ===== src/Provider.antt =====
-- client/src/providers/SignalRCrdtProvider.ts: the state that a client keeps of its room.
pub mod Replace
