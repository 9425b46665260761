-- ===== src/Worker/Examples.antt =====
-- Tests and witnesses of a worker's life.
