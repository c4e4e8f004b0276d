-- ===== src/Lab32/Server/Exits.antt =====
-- How the accept loop of lab32 is left.
use operating_systems_labs.Base.{
  ◌≡◌, refl, Bool, true, false, not, ◌&&◌, ◌||◌, List, [], ◌∷◌, ◌++◌, codes, bytes_eq,
  if◌then◌else◌, pos, negsuc, eqb_ℤ, ltb_ℤ, All, Bool-cases, inl, inr, arith,
}
use operating_systems_labs.Lab32.Context.{Context, add_client}
use operating_systems_labs.Lab32.Cleaner.{happen_all}
use operating_systems_labs.Lab32.Server.{
  ServerRound, uncaught, stopped, running, start_server, leaves,
}

-- No `poll` fails, and neither does `accept` if it is called.
unfoldable pub Calm : ServerRound → Type 0
Calm r =
    (eqb_ℤ r.socket_code (negsuc 0) ≡ false)
    × (eqb_ℤ r.stdin_code (negsuc 0) ≡ false)
    × (ltb_ℤ r.client_sock (pos 0) ≡ false)

-- The word "q" is read in the round.
unfoldable pub quits : ServerRound → Bool
quits r = not (eqb_ℤ r.stdin_code (pos 0)) && r.stdin_ready && bytes_eq r.word (codes "q")

unfoldable pub any_quits : List ServerRound → Bool
any_quits [] = false
any_quits (r ∷ rounds) = quits r || any_quits rounds

-- The context after a calm round: what has happened before it, and then the client, if one has come.
abbrev pub accepted : ServerRound → Context → Context
accepted r context =
    if not (eqb_ℤ r.socket_code (pos 0)) && r.socket_ready
    then (add_client r.create_code r.tid r.client_sock (happen_all r.events context)).0
    else happen_all r.events context

abbrev pub accepted_all : List ServerRound → Context → Context
accepted_all [] context = context
accepted_all (r ∷ rounds) context = accepted_all rounds (accepted r context)

Calm-step :
    (r : ServerRound) (rounds : List ServerRound) (working : Bool) (context : Context)
    → Calm r
    → start_server (r ∷ rounds) true working context
      ≡ start_server rounds (not (quits r)) working (accepted r context)
unfolding start_server Calm quits
Calm-step r rounds working context h = ground arith

stopped-step :
    (rounds : List ServerRound) (working : Bool) (context : Context)
    → start_server rounds false working context ≡ leaves stopped context false
unfolding start_server
stopped-step [] working context = refl
stopped-step (r ∷ rounds) working context = refl

-- The context when the loop is left, with the client of the round in which a "q" is read.
abbrev pub until_quit : List ServerRound → Context → Context
until_quit [] context = context
until_quit (r ∷ rounds) context =
    if quits r then accepted r context else until_quit rounds (accepted r context)

-- While no system call fails, the loop goes on until a "q" is read on the standard input; each client
-- that has come up to then, in that round too, is added to the context, none later, and then the flag
-- of the cleaner is taken down.
pub start_server-Calm :
    (rounds : List ServerRound) (working : Bool) (context : Context)
    → All Calm rounds
    → start_server rounds true working context ≡ (
        if any_quits rounds
        then leaves stopped (until_quit rounds context) false
        else leaves running (accepted_all rounds context) working)
unfolding start_server any_quits
start_server-Calm [] working context h = refl
start_server-Calm (r ∷ rounds) working context h =
    rw (Calm-step r rounds working context h.0) (elim (Bool-cases (quits r)) [
      | inl q ↦ rw q (stopped-step rounds working (accepted r context))
      | inr q ↦ rw q (start_server-Calm rounds working (accepted r context) h.1)
    ])

failure-step :
    (r : ServerRound) (rounds : List ServerRound) (working : Bool) (context : Context)
    → ltb_ℤ (pos 0) r.socket_code ≡ true
    → r.socket_ready ≡ true
    → ltb_ℤ r.client_sock (pos 0) ≡ true
    → start_server (r ∷ rounds) true working context
      ≡ leaves uncaught (happen_all r.events context) working
unfolding start_server
failure-step r rounds working context polled ready refused = ground arith

-- In rounds where no other system call fails and no "q" is read, each client that has come is added to
-- the context; at the first failure of `accept` the exception leaves startServer with this context and
-- what the other threads have done to it, whatever would come later, and the cleaner's flag is as it
-- was.
pub start_server-uncaught :
    (before : List ServerRound) (r : ServerRound) (rounds : List ServerRound) (working : Bool)
    (context : Context)
    → All Calm before
    → any_quits before ≡ false
    → ltb_ℤ (pos 0) r.socket_code ≡ true
    → r.socket_ready ≡ true
    → ltb_ℤ r.client_sock (pos 0) ≡ true
    → start_server (before ++ r ∷ rounds) true working context
      ≡ leaves uncaught (happen_all r.events (accepted_all before context)) working
unfolding any_quits
start_server-uncaught [] r rounds working context h no_quit polled ready refused =
    failure-step r rounds working context polled ready refused
start_server-uncaught (b ∷ before) r rounds working context h no_quit polled ready refused =
    elim (Bool-cases (quits b)) [
      | inl q ↦ absurd (ground (arith, q))
      | inr q ↦
          rw (Calm-step b (before ++ r ∷ rounds) working context h.0, q)
            (start_server-uncaught before r rounds working (accepted b context) h.1
              (ground (arith, q)) polled ready refused)
    ]
