-- ===== src/Collaboration/Numbers.antt =====
-- The numbers of the events.
