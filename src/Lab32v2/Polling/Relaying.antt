-- ===== src/Lab32v2/Polling/Relaying.antt =====
-- lab32v2: one round in which a piece of a response body, of a stated length and not cached, goes from
-- the HTTP server to the user.
use operating_systems_labs.Base.{
  ℕ, ◌-◌, ◌≤◌, ◌≡◌, refl, ap, ◌∙◌, Bool, true, false, Option, none, some, List, [], ◌∷◌, ◌++◌,
  Bytes, ℤ, pos, ◌-ℤ◌, leb_ℤ, length, leb, Bool-cases, inl, inr, if_true, if_false, take-length,
  arith, if◌then◌else◌,
}
use operating_systems_labs.Lab32v2.Constants.{buf_size}
use operating_systems_labs.Lab32v2.Cash.Element.{Platform}
use operating_systems_labs.Lab32v2.Buffer.{
  World, Completion, returned, read_response, write_response_body, read_from_socket, end_download,
  send_buf, is_ready_to_send, send_buffered, proof_send,
}
use operating_systems_labs.Lab32v2.Buffer.Delivery.{drop_all}
use operating_systems_labs.Lab32v2.Client.{Events, all_events, no_events}
use operating_systems_labs.Lab32v2.Polling.{Visit, handle_client, moves}
use operating_systems_labs.Lab32v2.Polling.Shapes.{Socket, paired, freed}

-- So many bytes of the body are still to come, and all that has come has been sent.
abbrev pub relaying : ℕ → World → World
relaying left w = record w {
  buffer = record w.buffer {
    status_client = read_response;
    status_http_server = write_response_body;
    buf = [];
    is_client_connect = true;
    is_server_connect = true;
    is_ready_to_send = false;
    is_end_send = false;
    is_ready_connect_http_server = false;
    length_body = pos left;
    is_have_content_length_response = true;
    is_add_data_to_cash = false;
    is_data_get_cash = false;
    error = false;
  };
}

-- The piece is in the buffer.
abbrev pub taken : ℕ → Bytes → Bool → World → World
taken left piece ends w = record w {
  buffer = record (relaying left w).buffer {
    buf = piece;
    is_ready_to_send = true;
    length_body = pos left -ℤ pos (length piece);
    is_end_send = ends;
  };
}

-- The piece has been sent.
abbrev pub emptied : ℕ → Bytes → World → World
emptied left piece w = record w {
  buffer = record (relaying left w).buffer { length_body = pos left -ℤ pos (length piece) };
}

-- Whether the piece ends the body.
abbrev pub is_last : ℕ → Bytes → Bool
is_last left piece = leb_ℤ (pos left -ℤ pos (length piece)) (pos 0)

counts :
    (b : Bool) (z : ℤ) (piece : Bytes) (left : ℕ) (w : World) (ends : Bool)
    → b ≡ ends
    → end_download b (record w {
      buffer =
          if b
          then record (relaying left w).buffer {
            buf = piece;
            is_ready_to_send = true;
            length_body = z;
            is_end_send = true;
          }
          else record (relaying left w).buffer {
            buf = piece;
            is_ready_to_send = true;
            length_body = z;
          };
    })
      ≡ some (record w {
        buffer = record (relaying left w).buffer {
          buf = piece;
          is_ready_to_send = true;
          length_body = z;
          is_end_send = ends;
        };
      })
unfolding end_download
counts true z piece left w true e = refl
counts false z piece left w false e = refl
counts true z piece left w false e = absurd (cc)
counts false z piece left w true e = absurd (cc)

takes_piece :
    (os : Platform) (left : ℕ) (piece : Bytes) (w : World) (ends : Bool)
    → is_last left piece ≡ ends
    → read_from_socket os piece (relaying left w) ≡ some (returned, taken left piece ends w)
unfolding read_from_socket
takes_piece os left piece w ends e =
    ap without_throw
      (counts (is_last left piece) (pos left -ℤ pos (length piece)) piece left w ends e)
  where
    without_throw : Option World → Option (Completion × World)
    without_throw o = elim o as (λ _. Option (Completion × World)) [
      | none ↦ none
      | some w' ↦ some (returned, w')
    ]

send_buffered-whole : (piece : Bytes) → length piece ≤ buf_size - 1 → send_buffered piece ≡ piece
unfolding send_buffered
send_buffered-whole piece h = elim (Bool-cases (leb (buf_size - 1) (length piece))) [
  | inl long ↦ if_true _ _ _ long ∙ take-length (buf_size - 1) piece h
  | inr short ↦ if_false _ _ _ short
]

-- What `poll` reports: input from the HTTP server, and that the user can be written to.
abbrev pub from_server : Events
from_server = record { pollin = true; pollout = false; pollrdhup = false }

abbrev pub to_user : Events
to_user = record { pollin = false; pollout = true; pollrdhup = false }

abbrev pub with_events : Events → Events → Socket → Socket
with_events events revents s = record s { events = events; revents = revents }

module _ (os : Platform) (wraps : Bool) (left : ℕ) (x : ℕ) (xs : Bytes) (w : World)
    (written : List (ℤ × Bytes)) (v1 v2 : Visit) (u h : Socket) where
  abbrev piece : Bytes
  piece = x ∷ xs

  -- The visit of the HTTP server.
  pub reads :
      (ends : Bool)
      → v1.received ≡ some piece
      → is_last left piece ≡ ends
      → handle_client os wraps v1 1 (
          paired
            (relaying left w)
            written
            (record u { revents = to_user })
            (record h { revents = from_server }))
        ≡ some (
          moves (some 1),
          paired
              (taken left piece ends w)
              written
              (with_events all_events to_user u)
              (record h { revents = no_events }),
        )
  unfolding handle_client
  reads ends received e = rw received (rw (takes_piece os left piece w ends e) refl)

  -- The visit of the user, to whom the piece is sent.
  pub sends :
      length piece ≤ buf_size - 1
      → handle_client os wraps v2 0
          (paired (taken left piece false w) written (with_events all_events to_user u) h)
        ≡ some (
          moves (some 0),
          paired
              (emptied left piece w)
              (written ++ (u.fd, piece) ∷ [])
              (with_events all_events no_events u)
              h,
        )
  unfolding handle_client is_ready_to_send send_buf proof_send
  sends small =
      rw (send_buffered-whole piece small) (rw (drop_all (length xs) xs (omega arith)) refl)

  -- The same with the last piece, after which the user and the HTTP server are deleted.
  pub sends_last :
      length piece ≤ buf_size - 1
      → handle_client os wraps v2 0
          (paired (taken left piece true w) written (with_events all_events to_user u) h)
        ≡ some (moves none, freed w (written ++ (u.fd, piece) ∷ []) (none ∷ none ∷ []))
  unfolding handle_client is_ready_to_send send_buf proof_send
  sends_last small =
      rw (send_buffered-whole piece small) (rw (drop_all (length xs) xs (omega arith)) refl)
