-- ===== src/Lab32/CashContext/History.antt =====
-- What the cache of lab32 answers after any sequence of calls to addToCash, from any threads.
use operating_systems_labs.Base.{
  ◌≡◌, refl, ap, ◌≢◌, sym, true, false, ◌&&◌, ◌||◌, List, [], ◌∷◌, Bytes, bytes_eq, bytes_eq_refl,
  bytes_eq-eq, if◌then◌else◌, Bool-cases, inl, inr, ℤ, eqb_ℤ, arith,
}
use operating_systems_labs.Lab32.Constants.{correct_code}
use operating_systems_labs.Lab32.CashContext.{
  CashContext, contains, value_of, find_in_cash, add_to_cash,
}

-- One call of addToCash: the code of the lock, the request and the response.
pub record Addition : Type 0 where
  pub lock_code : ℤ
  pub request : Bytes
  pub response : Bytes

-- The calls in the order in which they get the mutex.
unfoldable pub add_all : List Addition → CashContext → CashContext
unfolding add_to_cash
add_all [] c = c
add_all (a ∷ additions) c = add_all additions (add_to_cash a.lock_code c a.request a.response)

-- The response of the first call for the request that got the lock.
unfoldable pub first_response : List Addition → Bytes → Bytes
first_response [] request = []
first_response (a ∷ additions) request =
    if eqb_ℤ a.lock_code correct_code && bytes_eq a.request request
    then a.response
    else first_response additions request

contains-eq :
    (entries : List (Bytes × Bytes)) (q r : Bytes)
    → bytes_eq r q ≡ true
    → contains entries q ≡ contains entries r
contains-eq entries q r e = ap (contains entries) (sym (bytes_eq-eq r q e))

contains-add :
    (code : ℤ) (c : CashContext) (r x q : Bytes)
    → contains (add_to_cash code c r x).request_response q
      ≡ (contains c.request_response q || eqb_ℤ code correct_code && bytes_eq r q)
unfolding add_to_cash contains
contains-add code c r x q = elim (Bool-cases (bytes_eq r q)) [
  | inl e ↦ ground (arith, contains-eq c.request_response q r e)
  | inr e ↦ ground arith
]

value_of-add_old :
    (code : ℤ) (c : CashContext) (r x q : Bytes)
    → contains c.request_response q ≡ true
    → value_of (add_to_cash code c r x).request_response q ≡ value_of c.request_response q
unfolding add_to_cash value_of
value_of-add_old code c r x q h = elim (Bool-cases (bytes_eq r q)) [
  | inl e ↦ ground (arith, contains-eq c.request_response q r e)
  | inr e ↦ ground arith
]

value_of-add_new :
    (code : ℤ) (c : CashContext) (r x q : Bytes)
    → contains c.request_response q ≡ false
    → (eqb_ℤ code correct_code && bytes_eq r q) ≡ true
    → value_of (add_to_cash code c r x).request_response q ≡ x
unfolding add_to_cash value_of
value_of-add_new code c r x q h locked =
    let e : bytes_eq r q ≡ true = ground arith in
    ground (arith, contains-eq c.request_response q r e)

find-answer :
    (c : CashContext) (q : Bytes)
    → find_in_cash correct_code c q
      ≡ (if contains c.request_response q then value_of c.request_response q else [])
unfolding find_in_cash
find-answer c q = refl

find-add_all :
    (additions : List Addition) (c : CashContext) (q : Bytes)
    → find_in_cash correct_code (add_all additions c) q ≡ (
        if contains c.request_response q
        then value_of c.request_response q
        else first_response additions q)
unfolding add_all first_response
find-add_all [] c q = find-answer c q
find-add_all (a ∷ additions) c q = ground (
  arith,
  find-add_all additions (add_to_cash a.lock_code c a.request a.response) q,
  contains-add a.lock_code c a.request a.response q,
  value_of-add_old a.lock_code c a.request a.response q,
  value_of-add_new a.lock_code c a.request a.response q,
)

-- Whatever calls of addToCash the threads make on an empty cache, findInCash answers a request, if it
-- gets the lock, with the response of the first of these calls that was for the request and got the
-- lock, and with the empty string if there is none.
pub find_in_cash-first_response :
    (additions : List Addition) (request : Bytes)
    → find_in_cash correct_code (add_all additions (record { request_response = [] })) request
      ≡ first_response additions request
unfolding contains
find_in_cash-first_response additions request =
    find-add_all additions (record { request_response = [] }) request

find-kept :
    (c : CashContext) (q : Bytes)
    → find_in_cash correct_code c q ≢ []
    → contains c.request_response q ≡ true
unfolding find_in_cash
find-kept c q h = ground arith

-- A response that findInCash has found, which is not empty, is the answer to its request for good:
-- no further calls of addToCash change it.
pub find_in_cash-stable :
    (additions : List Addition) (c : CashContext) (request : Bytes)
    → find_in_cash correct_code c request ≢ []
    → find_in_cash correct_code (add_all additions c) request ≡ find_in_cash correct_code c request
find_in_cash-stable additions c request h =
    rw (find-add_all additions c request, find-answer c request, find-kept c request h)

-- A request that the cache has no entry for is answered, after a call of addToCash that gets the
-- lock, with the response of that call.
pub find-add_to_cash :
    (c : CashContext) (request response : Bytes)
    → contains c.request_response request ≡ false
    → find_in_cash correct_code (add_to_cash correct_code c request response) request ≡ response
unfolding find_in_cash add_to_cash contains value_of
find-add_to_cash c request response h = ground (arith, bytes_eq_refl request)
