-- ===== src/Stats/Atomic.antt =====
-- Record's atomic operations, one after the other, are record_sample.
use handling_50k_requestes_p.Prelude.Float.{Float}
