-- ===== src/Webhook/Dispatcher/Overlap.antt =====
-- Two attempts for one delivery that were read before either was recorded: a poll takes up to fifty
-- deliveries, one after the other, and the next one starts after ten seconds.
