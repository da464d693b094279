-- ===== src/Paging/OnePage.antt =====
-- `SetupPageMaps` of kernel/paging.cpp for one page: the levels together.
use mikansaos.Paging.{Paging}
