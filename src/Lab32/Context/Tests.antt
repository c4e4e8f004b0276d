-- ===== src/Lab32/Context/Tests.antt =====
-- Examples for the context of lab32: three threads, one of which has ended.
use operating_systems_labs.Base.{◌≡◌, refl, true, false, [], ◌∷◌, pos, to_int, length, arith}
use operating_systems_labs.Lab32.Context.{Thread, Context, join_dead_clients}
use operating_systems_labs.Lab32.Context.Joining.{Ascending, at_work, join_dead_clients-at_work}

abbrev working : Thread
working = record { is_working = true; socket_fd = pos 4 }

abbrev dead : Thread
dead = record { is_working = false; socket_fd = pos 5 }

abbrev three : Context
three = record { thread_map = (1, working) ∷ (2, dead) ∷ (3, working) ∷ [] }

join_dead_clients-at_work_example :
    ((join_dead_clients three).context.thread_map ≡ at_work three.thread_map)
    × ((join_dead_clients three).alive ≡ to_int (length (at_work three.thread_map)))
    × Ascending (join_dead_clients three).context.thread_map
unfolding Ascending
join_dead_clients-at_work_example =
    join_dead_clients-at_work three
      ((omega arith, (omega arith, tt)), ((omega arith, tt), (tt, tt)))

two_left : (join_dead_clients three).context.thread_map ≡ (1, working) ∷ (3, working) ∷ []
unfolding join_dead_clients
two_left = refl
