-- ===== src/EndToEnd/Delivered.antt =====
-- A call among other threads, and its line among the outputs after the shutdown.
use inqjet.Common.Bytes.{Bytes}
use inqjet.Logbuf.{Logbuf}
use inqjet.Consumer.{Archiver}

-- The archiver with another log queue.
abbrev pub logged : (R : Logbuf) → Archiver R → R.Queue → Archiver R
logged R a q = record a { log = record a.log { queue = q } }
