-- ===== src/Receiver.antt =====
-- internal/receiverloop: the loop that a receiver runs, with its kick on announcements.
pub mod Loop
