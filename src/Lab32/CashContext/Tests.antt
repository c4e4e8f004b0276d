-- ===== src/Lab32/CashContext/Tests.antt =====
-- Examples for the cache of lab32: a request that is added three times, the first time without the
-- lock.
use operating_systems_labs.Base.{◌≡◌, refl, List, [], ◌∷◌, bytes_eq, codes, pos}
use operating_systems_labs.Lab32.Constants.{correct_code}
use operating_systems_labs.Lab32.CashContext.{CashContext, find_in_cash, contains, value_of}
use operating_systems_labs.Lab32.CashContext.History.{
  Addition, add_all, first_response, find_in_cash-first_response, find_in_cash-stable,
}

abbrev additions : List Addition
additions =
    record { lock_code = pos 22; request = codes "a"; response = codes "no lock" }
    ∷ record { lock_code = pos 0; request = codes "a"; response = codes "one" }
    ∷ record { lock_code = pos 0; request = codes "a"; response = codes "two" }
    ∷ []

abbrev empty : CashContext
empty = record { request_response = [] }

find_in_cash-first_response_example :
    find_in_cash correct_code (add_all additions empty) (codes "a")
    ≡ first_response additions (codes "a")
find_in_cash-first_response_example = find_in_cash-first_response additions (codes "a")

found_first : first_response additions (codes "a") ≡ codes "one"
unfolding first_response bytes_eq
found_first = refl

abbrev filled : CashContext
filled = record { request_response = (codes "a", codes "one") ∷ [] }

find_in_cash-stable_example :
    find_in_cash correct_code (add_all additions filled) (codes "a")
    ≡ find_in_cash correct_code filled (codes "a")
unfolding find_in_cash contains value_of bytes_eq
find_in_cash-stable_example = find_in_cash-stable additions filled (codes "a") (λ e. cc)
