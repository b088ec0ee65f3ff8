-- ===== src/Prelude/Results.antt =====
-- Rust's `Result`, with the error first.
pub data Result (E A : Type 0) : Type 0 where
  ok : A → Result E A
  err : E → Result E A
