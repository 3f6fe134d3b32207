-- ===== src/Worker/Tests.antt =====
-- The worker on small tables.
mod Data
mod Orders
mod Items
