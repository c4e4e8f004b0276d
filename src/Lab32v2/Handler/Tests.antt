-- ===== src/Lab32v2/Handler/Tests.antt =====
-- Tests of the handler.
use operating_systems_labs.Base.{List, true, false, ◌≡◌, refl, inl, arith, some, [], ◌∷◌}
use operating_systems_labs.Lab32v2.Buffer.{World, element_of}
use operating_systems_labs.Lab32v2.Handler.{success, send_all}
use operating_systems_labs.Lab32v2.Handler.Rounds.{Reads}
use operating_systems_labs.Lab32v2.Handler.SendAll.{
  Delivered, send_all-delivers, send_all-short_write,
}
use operating_systems_labs.Lab32v2.Handler.FromCash.{Turn, woken, appends, connects, get_from_cash}
use operating_systems_labs.Lab32v2.Handler.Streams.{Streams}
use operating_systems_labs.Lab32v2.Handler.Serves.{get_from_cash-Streams}
use operating_systems_labs.Lab32v2.Handler.Returns.{get_from_cash-returns}
use operating_systems_labs.Lab32v2.Cash.Element.{CashElement}
use operating_systems_labs.Lab32v2.TestData.{cash_a, reader, element_a}

reader-Reads : Reads reader element_a
unfolding element_of
reader-Reads = record { cached = refl; stands = refl; within = omega arith; flag = inl refl }

send_all-delivers_example : Delivered reader element_a (send_all (some 524287 ∷ []) reader)
send_all-delivers_example =
    send_all-delivers (some 524287 ∷ []) reader element_a reader-Reads
      ((524287, refl, omega arith), tt) (omega arith)

send_all-short_write_example :
    (w' : World) × (send_all (some 1 ∷ []) reader ≡ some (success, 2 ∷ [], w'))
    × (w'.buffer.count_byte_read_from_cash ≡ 3)
send_all-short_write_example =
    send_all-short_write 1 reader element_a reader-Reads (omega arith) (omega arith)

-- A turn in which the rest is sent, and one in which a wait ends with another byte and no server.
abbrev two_turns : List Turn
two_turns =
    record { waits = []; writes = some 524287 ∷ [] }
    ∷ record {
      waits = woken (appends (9 ∷ []) ∷ connects false ∷ []) ∷ [];
      writes = some 524287 ∷ [];
    }
    ∷ []

get_from_cash-Streams_example :
    Streams reader element_a (get_from_cash true true 5 two_turns reader)
get_from_cash-Streams_example =
    get_from_cash-Streams 5 two_turns reader element_a reader-Reads
      (((524287, refl, omega arith), tt), (((524287, refl, omega arith), tt), tt))

-- The response has three bytes, one has been sent, and the server is gone.
abbrev gone_element : CashElement
gone_element = record element_a { is_server_connected = false }

abbrev gone_reader : World
gone_reader = record reader { cash = record cash_a { elements = gone_element ∷ [] } }

gone_reader-Reads : Reads gone_reader gone_element
unfolding element_of
gone_reader-Reads = record { cached = refl; stands = refl; within = omega arith; flag = inl refl }

get_from_cash-returns_example :
    (w' : World) × (get_from_cash true true 5 two_turns gone_reader
      ≡ some (success, 2 ∷ 3 ∷ [], w'))
get_from_cash-returns_example =
    get_from_cash-returns 5 (record { waits = []; writes = some 524287 ∷ [] })
      (record {
        waits = woken (appends (9 ∷ []) ∷ connects false ∷ []) ∷ [];
        writes = some 524287 ∷ [];
      }
        ∷ [])
      gone_reader gone_element gone_reader-Reads refl ((524287, refl, omega arith), tt)
      (omega arith)
