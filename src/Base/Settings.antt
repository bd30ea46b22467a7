-- ===== src/Base/Settings.antt =====
-- A setting of the project that is read as an integer.
use alpha_pos_server.Base.Int.{ℤ}

pub data Setting : Type 0 where
  unset not_a_number : Setting
  integer : ℤ → Setting
