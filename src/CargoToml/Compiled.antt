-- ===== src/CargoToml/Compiled.antt =====
-- The manifest that a request is compiled with.
