-- ===== src/Proxy/Counts.antt =====
-- proxy.go: who is counted out.
