-- ===== src/AltServers/Chosen.antt =====
-- Which servers `altservers_getListForUplink` picks.
