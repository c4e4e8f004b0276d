-- ===== src/Lab31v2/Constants.antt =====
-- lab31/v2/Constants.h: the numeric constants that the modelled code reads.
use operating_systems_labs.Base.{ℕ, ◌*◌}

abbrev pub buf_size : ℕ
buf_size = 1024 * 1024

abbrev pub size_each_cash_element : ℕ
size_each_cash_element = 9223372036854775000

abbrev pub max_cash_size : ℕ
max_cash_size = 1024 * 1024 * 1024
