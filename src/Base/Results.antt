-- ===== src/Base/Results.antt =====
-- A result or an error.

pub data Result (E A : Type 0) : Type 0 where
  ok : A → Result E A
  err : E → Result E A
