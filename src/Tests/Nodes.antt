-- ===== src/Tests/Nodes.antt =====
-- The theorems on tattle/state.py at a manager with a local node and two peers.
use Prim.Native.Nat.{max}
use tattle.Prelude.{
  ℕ, ◌*◌, ◌≡◌, refl, true, false, not, ◌&&◌, some, List, [], ◌∷◌, arith, if◌then◌else◌, ltb,
}
use tattle.Prelude.Dict.{get, put, contains}
use tattle.Exec.{ok}
use tattle.Queue
use tattle.State.Node.{alive, suspect, dead, NodeManager, Env}
use tattle.State.Handlers.{
  node_manager, set_local_node, on_node_alive, on_node_dead, on_node_suspect, forget_node,
  handle_suspect_timer, run_timer,
}
use tattle.State.Shape.{Inv, view}
use tattle.State.Knowledge.{Learns, names_local, hear_alive}
use tattle.State.Refinement.{
  on_node_alive-Learns, on_node_dead-Learns, on_node_suspect-Learns, heard,
}
use tattle.State.Runs.{
  Call, alive_call, suspect_call, timer_call, run, IsSafe, started, run-IsSafe, run-started-IsSafe,
}
use tattle.State.Rumors.{Older, notify-Older}
use tattle.State.Repeating.{notify_again}
use tattle.State.Refutation.{refutation_reaches_peer, late_task_kills}
use tattle.State.Forgetting.{forgets, forget_node-Learns}

-- Floats are numbers here, and every message is encoded as ten bytes.
abbrev pub env : Env ℕ
env = record {
  suspicion_min_timeout_multi = 5;
  suspicion_max_timeout_multi = 6;
  probe_interval = 1;
  from_int = λ n. n;
  log10 = λ n. n;
  mul = ◌*◌;
  max_float = max;
  now = 7;
  random = 4;
  encode = λ m. ok (1 ∷ 2 ∷ 3 ∷ 4 ∷ 5 ∷ 6 ∷ 7 ∷ 8 ∷ 9 ∷ 10 ∷ []);
}

abbrev pub calls : List (Env ℕ × Call ℕ)
calls =
    (env, alive_call "peer" 3 (some "10.0.0.2") 7900 (some []))
    ∷ (env, suspect_call "peer" 3 (some []))
    ∷ (env, alive_call "other" 1 (some "10.0.0.3") 7900 (some []))
    ∷ []

abbrev pub manager : NodeManager ℕ
manager = run calls (started env 0 "me" (some "10.0.0.1") 7900 (some []))

known :
    (view manager "me" ≡ some (alive, 1))
    × (view manager "peer" ≡ some (suspect, 3))
    × (view manager "other" ≡ some (alive, 1))
unfolding run set_local_node node_manager get put contains Queue.push on_node_suspect run_timer
known = (refl, refl, refl)

-- The timer of the suspicion has run, and then the peer proves alive.
abbrev raced : NodeManager ℕ
raced =
    run
      ((env, timer_call (record { id = 0; node = 1; time = 0 }))
        ∷ (env, alive_call "peer" 4 (some "10.0.0.2") 7900 (some []))
        ∷ [])
      manager

-- A peer of the local node, which holds it for suspect
abbrev accuser : NodeManager ℕ
accuser =
    run
      ((env, alive_call "me" 5 (some "10.0.0.1") 7900 (some []))
        ∷ (env, suspect_call "me" 5 (some []))
        ∷ [])
      (started env 0 "you" (some "10.0.0.9") 7900 (some []))

raced_known :
    (view raced "peer" ≡ some (alive, 4))
    × (raced.tasks ≡ 1 ∷ [])
    × (get raced.nodes_map "peer" ≡ some 1)
unfolding run set_local_node node_manager get put contains Queue.push on_node_suspect run_timer
raced_known = (refl, refl, refl)

remotes :
    (names_local manager "peer" ≡ false)
    × (names_local raced "peer" ≡ false)
    × (names_local accuser "me" ≡ false)
    × (names_local manager "me" ≡ true)
unfolding run set_local_node node_manager get put contains Queue.push on_node_suspect run_timer
remotes = (refl, refl, refl, refl)

accused : (view accuser "me" ≡ some (suspect, 5)) × (manager.local_node_seq.next ≡ 2)
unfolding run set_local_node node_manager get put contains Queue.push on_node_suspect run_timer
accused = (refl, refl)

manager-IsSafe : IsSafe "me" manager
manager-IsSafe = run-started-IsSafe env 0 "me" (some "10.0.0.1") 7900 (some []) calls

raced-Inv : Inv raced
raced-Inv =
    (run-IsSafe
      ((env, timer_call (record { id = 0; node = 1; time = 0 }))
        ∷ (env, alive_call "peer" 4 (some "10.0.0.2") 7900 (some []))
        ∷ [])
      "me" manager manager-IsSafe).inv

accuser-Inv : Inv accuser
accuser-Inv =
    (run-started-IsSafe env 0 "you" (some "10.0.0.9") 7900 (some []) (
      (env, alive_call "me" 5 (some "10.0.0.1") 7900 (some []))
      ∷ (env, suspect_call "me" 5 (some []))
      ∷ [])).inv

run-started-IsSafe_example : IsSafe "me" manager
run-started-IsSafe_example = run-started-IsSafe env 0 "me" (some "10.0.0.1") 7900 (some []) calls

on_node_alive-Learns_example :
    Learns "peer"
      (hear_alive (names_local manager "peer") (view manager "peer") 4)
      manager
      (on_node_alive env "peer" 4 (some "10.0.0.2") 7900 (some []) manager).1
on_node_alive-Learns_example =
    on_node_alive-Learns env "peer" 4 (some "10.0.0.2") 7900 (some []) manager manager-IsSafe.inv

on_node_dead-Learns_example :
    Learns "peer"
      (heard env "peer" 3 dead (names_local manager "peer" && not manager.leaving) manager)
      manager
      (on_node_dead env "peer" 3 manager).1
on_node_dead-Learns_example = on_node_dead-Learns env "peer" 3 manager manager-IsSafe.inv

on_node_suspect-Learns_example :
    Learns "me"
      (heard env "me" 1 suspect (names_local manager "me") manager)
      manager
      (on_node_suspect env "me" 1 (some []) manager).1
on_node_suspect-Learns_example =
    on_node_suspect-Learns env "me" 1 manager manager-IsSafe.inv (some [])

forget_node-Learns_example :
    Learns "peer" (forgets (view manager "peer")) manager (forget_node env "peer" manager).1
forget_node-Learns_example = forget_node-Learns env "peer" manager manager-IsSafe.inv

notify-Older_example :
    Older
      (view manager "peer")
      (view (on_node_alive env "peer" 4 (some "10.0.0.2") 7900 (some []) manager).1 "peer")
    × Older (view manager "peer") (view (on_node_dead env "peer" 4 manager).1 "peer")
    × Older (view manager "peer") (view (on_node_suspect env "peer" 4 (some []) manager).1 "peer")
notify-Older_example =
    notify-Older env "peer" 4 manager (some "10.0.0.2") 7900 (some []) manager-IsSafe.inv remotes.0
      "peer"

notify_again_example :
    let d = (on_node_dead env "peer" 4 manager).1 in
    let a = (on_node_alive env "peer" 4 (some "10.0.0.9") 7900 (some []) manager).1 in
    let b = on_node_alive env "peer" 4 (some "10.0.0.9") 7900 (some []) a in
    (on_node_dead env "peer" 4 d ≡ (ok tt, d))
    × (b.0 ≡ ok tt)
    × (b.1.queue ≡ a.queue)
    × (b.1.emitted ≡ a.emitted)
notify_again_example =
    notify_again env env "peer" 4 manager (some "10.0.0.9") 7900 (some []) manager-IsSafe.inv
      remotes.0

-- Here the answer is not above the rumor, and the accuser keeps its suspicion.
refutation_reaches_peer_example :
    (view (on_node_suspect env "me" 5 (some []) manager).1 "me"
      ≡ some (alive, manager.local_node_seq.next))
    × (view
          (on_node_alive env "me" manager.local_node_seq.next
            (some "10.0.0.1")
            7900
            (some [])
            accuser).1
          "me"
        ≡ (if ltb 5 manager.local_node_seq.next
            then some (alive, manager.local_node_seq.next)
            else some (suspect, 5)))
refutation_reaches_peer_example =
    refutation_reaches_peer env env "me" 5 1 manager accuser (some []) (some "10.0.0.1") 7900
      manager-IsSafe.inv accuser-Inv remotes.3 known.0 (omega arith) remotes.2 accused.0

late_task_kills_example : view (handle_suspect_timer env raced).1 "peer" ≡ some (dead, 4)
late_task_kills_example =
    late_task_kills env "peer" 1 4 [] raced raced-Inv remotes.1 raced_known.1 raced_known.2
      raced_known.0
