-- ===== src/Lab31v2/Server/Iterators.antt =====
-- lab31/v2: the iterator of handlingEvent when a client is deleted.
use operating_systems_labs.Base.{ℕ, ◌≡◌, true, some, []}
use operating_systems_labs.Lab31v2.Server.{Client, Server, deref, Visit}

-- A client from which nothing is read any more.
pub record Leaves (s : Server) (v : Visit) (p : ℕ) (c : Client) : Type 0 where
  pub stands : deref s.clients p ≡ some c
  pub ready : c.pollin ≡ true
  pub ended : v.bytes ≡ []
