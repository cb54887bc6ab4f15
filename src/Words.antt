-- ===== src/Words.antt =====
-- Unsigned machine integers as native numbers: the saturating and checked operations of Rust's
-- standard library that the program uses, and their bounds.
use snoozer.Prelude.{ℕ, ◌+◌, ◌-◌, ◌*◌, ◌^◌, min, leb, ltb, if◌then◌else◌}

-- the largest value of a `bits`-bit unsigned integer
abbrev pub max_value : ℕ → ℕ
max_value bits = 2 ^ bits - 1

abbrev pub saturating_mul : ℕ → ℕ → ℕ → ℕ
saturating_mul bits a b = min (a * b) (max_value bits)

abbrev pub saturating_add : ℕ → ℕ → ℕ → ℕ
saturating_add bits a b = min (a + b) (max_value bits)

-- `uN::try_from(x).unwrap_or(uN::MAX)`
abbrev pub try_from_or_max : ℕ → ℕ → ℕ
try_from_or_max bits x = if leb x (max_value bits) then x else max_value bits

-- `Ord::clamp`
abbrev pub clamp : ℕ → ℕ → ℕ → ℕ
clamp x lo hi = if ltb x lo then lo else if ltb hi x then hi else x
