-- ===== src/Examples/Jobs.antt =====
-- A hot-path call as one of the calls of many threads.
use inqjet.Common.Bytes.{Bytes}
