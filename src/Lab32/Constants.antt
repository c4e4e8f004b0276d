-- ===== src/Lab32/Constants.antt =====
-- lab32/Consts.h: the codes that the functions return.
use operating_systems_labs.Base.{ℤ, pos, negsuc}

abbrev pub correct_code : ℤ
correct_code = pos 0

abbrev pub error_code : ℤ
error_code = negsuc 0
