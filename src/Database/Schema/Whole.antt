-- ===== src/Database/Schema/Whole.antt =====
-- internal/store/store.go: the keys and the constraints of a sound database say that it is whole.
