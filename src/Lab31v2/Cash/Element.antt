-- ===== src/Lab31v2/Cash/Element.antt =====
-- lab31/v2/cash/CashElementImpl: one cached response. `_cash` is shared by pointers to the string, and
-- the callers change it through `getCash()`.
use operating_systems_labs.Base.{ℕ, Bool, false, [], ◌++◌, Bytes, ℤ, pos, ◌+ℤ◌, ◌-ℤ◌}

pub record CashElement : Type 0 where
  pub count_users : ℤ
  pub is_cash_end : Bool
  pub is_server_connected : Bool
  pub hash_head : ℕ
  pub head : Bytes
  pub cash : Bytes

-- The constructor, with `std::hash<std::string>` as an argument.
unfoldable pub new_cash_element : (Bytes → ℕ) → Bytes → CashElement
new_cash_element hasher heading = record {
  count_users = pos 0;
  is_cash_end = false;
  is_server_connected = false;
  hash_head = hasher heading;
  head = heading;
  cash = [];
}

abbrev pub set_is_cash_end : Bool → CashElement → CashElement
set_is_cash_end var e = record e { is_cash_end = var }

abbrev pub add_count_users : CashElement → CashElement
add_count_users e = record e { count_users = e.count_users +ℤ pos 1 }

abbrev pub minus_count_users : CashElement → CashElement
minus_count_users e = record e { count_users = e.count_users -ℤ pos 1 }

abbrev pub set_is_server_connect : Bool → CashElement → CashElement
set_is_server_connect is_server_connected e = record e { is_server_connected = is_server_connected }

-- `getCash()->append(s)`.
abbrev pub append_cash : Bytes → CashElement → CashElement
append_cash s e = record e { cash = e.cash ++ s }
