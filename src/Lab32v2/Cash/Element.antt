-- ===== src/Lab32v2/Cash/Element.antt =====
-- lab32v2/cash/CashElementImpl: one cached response, with the condition variables of its readers.
-- An operation that signals returns the condition variables signalled, in order.
use operating_systems_labs.Base.{
  ℕ, Bool, false, Option, none, some, List, [], ◌∷◌, ◌++◌, Bytes, length, take, drop, ltb, ◌==◌,
  if◌then◌else◌, ◌^◌, ◌-◌, ℤ, pos, ◌+ℤ◌, ◌-ℤ◌, to_size,
}

pub record CashElement : Type 0 where
  pub count_connected_users : ℤ
  pub is_download_end : Bool
  pub is_server_connected : Bool
  pub hash_request_heading : ℕ
  pub request_heading : Bytes
  pub cash : Bytes
  pub list_subscribers : List ℕ
  pub mutex_for_subscribers : ℕ
  pub mutex_for_data : ℕ

-- The fields of CashImpl.
pub record Cash : Type 0 where
  pub mutex : ℕ
  pub list_cash : List ℕ
  pub byte_in_cash : ℤ
  pub elements : List CashElement

-- `std::string::max_size()`: a longer `resize` throws `std::length_error`.
abbrev pub max_size : ℕ
max_size = 2 ^ 63 - 1

-- `std::hash<std::string>`, what locking a mutex or a rwlock returns after its `init`, and what the
-- other threads do to the cache between the two calls with which a request is looked up.
pub record Platform : Type 0 where
  pub hasher : Bytes → ℕ
  pub subscribers_lock : ℕ
  pub data_lock : ℕ
  pub meanwhile : Cash → Cash

-- The constructor. It reserves room by a `resize` to dataSize - heading.size(), which `clear` undoes.
unfoldable pub create : Platform → Bytes → ℤ → Option CashElement
create os heading data_size =
    if ltb max_size (to_size (data_size -ℤ pos (length heading)))
    then none
    else some (record {
      count_connected_users = pos 0;
      is_download_end = false;
      is_server_connected = false;
      hash_request_heading = os.hasher heading;
      request_heading = heading;
      cash = [];
      list_subscribers = [];
      mutex_for_subscribers = os.subscribers_lock;
      mutex_for_data = os.data_lock;
    })

abbrev pub get_length : CashElement → ℕ
get_length e = length e.cash

abbrev pub set_download_end : Bool → CashElement → CashElement
set_download_end var e = record e { is_download_end = var }

unfoldable pub add_count_users : CashElement → CashElement
add_count_users e =
    if e.mutex_for_subscribers == 0
    then record e { count_connected_users = e.count_connected_users +ℤ pos 1 }
    else e

unfoldable pub minus_count_users : CashElement → CashElement
minus_count_users e =
    if e.mutex_for_subscribers == 0
    then record e { count_connected_users = e.count_connected_users -ℤ pos 1 }
    else e

unfoldable pub signal_users : CashElement → List ℕ
signal_users e = if e.mutex_for_subscribers == 0 then e.list_subscribers else []

unfoldable pub set_is_server_connect : Bool → CashElement → CashElement × List ℕ
unfolding signal_users
set_is_server_connect is_server_connected e =
    let e' : CashElement = record e { is_server_connected = is_server_connected } in
    (e', if is_server_connected then [] else signal_users e')

-- What `memcpy` writes over the first `size` bytes of the target; the rest of it stays.
unfoldable pub mem_copy_from_cash : Bytes → ℕ → ℕ → CashElement → Bytes
mem_copy_from_cash target offset size e = take size (drop offset e.cash) ++ drop size target

unfoldable pub append_string_to_cash : Bytes → CashElement → CashElement × List ℕ
unfolding signal_users
append_string_to_cash binary_string e =
    if e.mutex_for_data == 0
    then (let e' : CashElement = record e { cash = e.cash ++ binary_string } in
        (e', signal_users e'))
    else (e, [])

unfoldable pub add_cond_var : ℕ → CashElement → CashElement
add_cond_var cond_var e =
    if e.mutex_for_subscribers == 0
    then record e { list_subscribers = cond_var ∷ e.list_subscribers }
    else e

-- The loop stops at the first that is equal.
unfoldable pub erase_first : ℕ → List ℕ → List ℕ
erase_first cond_var [] = []
erase_first cond_var (c ∷ cs) = if c == cond_var then cs else c ∷ erase_first cond_var cs

unfoldable pub dell_cond_var : ℕ → CashElement → CashElement
unfolding erase_first
dell_cond_var cond_var e =
    if e.mutex_for_subscribers == 0
    then record e { list_subscribers = erase_first cond_var e.list_subscribers }
    else e
