-- ===== src/Select/Round/Starve.antt =====
-- A round of the select server in which no connection can be written to leaves nobody to be served.
