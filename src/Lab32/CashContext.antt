-- ===== src/Lab32/CashContext.antt =====
-- lab32/context/cash/CashContext.cpp. The map is an association list; the codes that the pthread
-- calls return are arguments. What they return for unlocking and destroying is only logged.
mod Tests
pub mod History
use operating_systems_labs.Base.{
  Bool, true, false, not, ◌&&◌, ◌||◌, Option, none, some, List, [], ◌∷◌, Bytes, bytes_eq,
  if◌then◌else◌, ℤ, eqb_ℤ,
}
use operating_systems_labs.Lab32.Constants.{correct_code}

pub record CashContext : Type 0 where
  pub request_response : List (Bytes × Bytes)

-- `_requestResponse.contains(request)`.
unfoldable pub contains : List (Bytes × Bytes) → Bytes → Bool
contains [] request = false
contains (entry ∷ entries) request = bytes_eq entry.0 request || contains entries request

-- `_requestResponse[request]` on a request that the map contains.
unfoldable pub value_of : List (Bytes × Bytes) → Bytes → Bytes
value_of [] request = []
value_of (entry ∷ entries) request =
    if bytes_eq entry.0 request then entry.1 else value_of entries request

unfoldable pub find_in_cash : ℤ → CashContext → Bytes → Bytes
unfolding contains value_of
find_in_cash lock_code c request =
    if not (eqb_ℤ lock_code correct_code)
    then []
    else (if contains c.request_response request then value_of c.request_response request else [])

unfoldable pub add_to_cash : ℤ → CashContext → Bytes → Bytes → CashContext
unfolding contains
add_to_cash lock_code c request response =
    if not (eqb_ℤ lock_code correct_code)
    then c
    else (if not (contains c.request_response request)
        then record c { request_response = (request, response) ∷ c.request_response }
        else c)

-- The constructor: the cache, unless a CashContextException is thrown, and whether the attributes of
-- the mutex have been destroyed.
unfoldable pub new_cash_context : ℤ → ℤ → ℤ → Option CashContext × Bool
new_cash_context attr_init_code set_type_code mutex_init_code =
    if not (eqb_ℤ attr_init_code correct_code)
    then (none, false)
    else (if not (eqb_ℤ set_type_code correct_code)
        then (none, true)
        else (if not (eqb_ℤ mutex_init_code correct_code)
            then (none, true)
            else (some (record { request_response = [] }), false)))
