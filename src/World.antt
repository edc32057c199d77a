-- ===== src/World.antt =====
-- backend/src/common/DataTypes.h: the frames that travel from the processing stage to the clients.
-- A `float` in transit is its 32-bit pattern, a number; transport copies it and never computes with it.
use caldera_sandbox.Base.{ℕ, List}
use caldera_sandbox.Base.Int.{ℤ}

pub record HeightMap : Type 0 where
  pub width : ℤ
  pub height : ℤ
  pub data_words : List ℕ

pub record WorldFrame : Type 0 where
  pub timestamp_ns : ℕ
  pub frame_id : ℕ
  pub height_map : HeightMap
  pub checksum : ℕ
