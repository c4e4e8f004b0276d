-- ===== src/Lab32v2/Cash/Tests.antt =====
-- Tests of the cache.
use operating_systems_labs.Base.{
  ◌-◌, ◌≡◌, ◌⊎◌, refl, inl, arith, false, none, some, [], ◌∷◌, In, get_elem?, pos, ◌+ℤ◌, ◌-ℤ◌, ◌≤ℤ◌,
}
use operating_systems_labs.Lab32v2.Constants.{max_cash_size}
use operating_systems_labs.Lab32v2.Cash.Element.{CashElement, create}
use operating_systems_labs.Lab32v2.Cash.{
  Cash, has_hash, first_with_hash, is_idle, weight, find_response_in_cash, is_element_in_cash,
  push_element, make_room, add_string_to_cash,
}
use operating_systems_labs.Lab32v2.Cash.Accounts.{Accounts, add_string_to_cash-Accounts}
use operating_systems_labs.Lab32v2.Cash.Limits.{
  IsValid, add_string_to_cash-limit, add_string_to_cash-keeps_read, find-add_string_to_cash,
}
use operating_systems_labs.Lab32v2.Cash.Faults.{Full, add_string_to_cash-undefined}
use operating_systems_labs.Lab32v2.TestData.{
  test_os, request_a, request_long, element_a, read_element, cash_a,
}

-- The element of `request_long`, and the cache once it has been added.
abbrev long_element : CashElement
long_element = record {
  count_connected_users = pos 0;
  is_download_end = false;
  is_server_connected = false;
  hash_request_heading = 9;
  request_heading = request_long;
  cash = [];
  list_subscribers = [];
  mutex_for_subscribers = 0;
  mutex_for_data = 0;
}

abbrev cash_long : Cash
cash_long = record {
  mutex = 0;
  list_cash = 0 ∷ 1 ∷ [];
  byte_in_cash = pos 118;
  elements = element_a ∷ long_element ∷ [];
}

abbrev busy_a : Cash
busy_a = record cash_a { elements = read_element ∷ [] }

abbrev busy_long : Cash
busy_long = record cash_long { elements = read_element ∷ long_element ∷ [] }

adds_long : add_string_to_cash test_os request_long (pos 100) cash_a ≡ some (some 1, cash_long)
unfolding add_string_to_cash make_room push_element create ◌+ℤ◌ ◌-ℤ◌
adds_long = refl

adds_busy : add_string_to_cash test_os request_long (pos 100) busy_a ≡ some (some 1, busy_long)
unfolding add_string_to_cash make_room push_element create ◌+ℤ◌ ◌-ℤ◌
adds_busy = refl

absent_long : is_element_in_cash test_os cash_a request_long ≡ false
unfolding is_element_in_cash first_with_hash has_hash
absent_long = refl

a_is_read : is_idle busy_a.elements 0 ≡ false
unfolding is_idle
a_is_read = refl

cash_a-IsValid : IsValid cash_a
cash_a-IsValid = (omega arith, tt)

add_string_to_cash-Accounts_example : Accounts (pos 100 +ℤ pos 9) cash_a (some 1) cash_long
add_string_to_cash-Accounts_example =
    add_string_to_cash-Accounts test_os request_long (pos 100) cash_a (some 1) cash_long adds_long

add_string_to_cash-limit_example : (pos 118 ≤ℤ pos 9) ⊎ (pos 118 ≤ℤ pos (max_cash_size - 1))
add_string_to_cash-limit_example =
    add_string_to_cash-limit test_os request_long (pos 100) cash_a (some 1) cash_long adds_long

add_string_to_cash-keeps_read_example : In 0 busy_long.list_cash
add_string_to_cash-keeps_read_example =
    add_string_to_cash-keeps_read test_os request_long (pos 100) busy_a (some 1) busy_long adds_busy
      0 (inl refl) a_is_read

find-add_string_to_cash_example :
    ((find_response_in_cash test_os cash_long request_long).0 ≡ some 1)
    × ((e : CashElement) × (get_elem? cash_long.elements 1 ≡ some e)
        × (e.cash ≡ [])
        × (e.request_heading ≡ request_long))
find-add_string_to_cash_example =
    find-add_string_to_cash test_os request_long (pos 100) cash_a 1 cash_long cash_a-IsValid
      absent_long adds_long

-- The count stands nine above the limit, and each element weighs nine.
abbrev full_cash : Cash
full_cash = record cash_a { byte_in_cash = pos 1073741833 }

full_cash-Full : Full full_cash (pos 0 +ℤ pos 6)
unfolding ◌+ℤ◌
full_cash-Full = record { unlocked = refl; allowed = refl; full = refl }

add_string_to_cash-undefined_example : add_string_to_cash test_os request_a (pos 0) full_cash ≡ none
unfolding is_idle weight ◌+ℤ◌ ◌-ℤ◌
add_string_to_cash-undefined_example =
    add_string_to_cash-undefined test_os request_a (pos 0) full_cash full_cash-Full [] 0 refl tt
      refl refl
