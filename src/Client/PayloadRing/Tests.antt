-- ===== src/Client/PayloadRing/Tests.antt =====
-- Tests of the payload ring.
