-- ===== src/Listings/Removed.antt =====
-- What the deletion of a listing leaves in the tables.
