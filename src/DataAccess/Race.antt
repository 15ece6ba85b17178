-- ===== src/DataAccess/Race.antt =====
-- Two threads in `createMsgByRawMsg` at once: the reads and the write of one call are no transaction.
