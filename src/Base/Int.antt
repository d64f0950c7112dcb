-- ===== src/Base/Int.antt =====
-- Whole numbers: a length of time that SQL or JSON hands over may be negative.
use Prim.Native.Nat.{ℕ, ◌-◌}
use ctf_website.Base.Compare.{leb, if◌then◌else◌}

-- `negsuc n` is -(n + 1).
pub data ℤ : Type 0 where
  pos : ℕ → ℤ
  negsuc : ℕ → ℤ

-- a - b, as an integer.
abbrev pub sub_ℕ : ℕ → ℕ → ℤ
sub_ℕ a b = if leb b a then pos (a - b) else negsuc (b - a - 1)
