-- ===== src/Discovery/Browser/Resolved.antt =====
-- A device that advertises its fingerprint is listed with it.
