-- ===== src/Client/Machine/Draining.antt =====
-- Tasks come to an end: whatever the server answers, answering alone leads to a machine with no tasks.
use nova_server_manager.Common.{Bool, List, [], ◌∷◌, ◌++◌}
use nova_server_manager.Client.Error.{Result}
use nova_server_manager.Client.Request.{Request, Answer}
use nova_server_manager.Client.Effect.{Prog, done, throw, set, emit, await, ask}
use nova_server_manager.Client.Machine.{
  Task, waiting, Machine, idle, Choices, reached, left, resume, Reach, later,
}

module _ {S C : Type 0} (enabled : S → C → Bool) (handler : S → C → Prog S (Unit {0}))
    (choices : Choices) (reply : (q : Request) → Result (Answer q)) where
  -- The state after the program has run to its end on these answers.
  unfoldable pub ended : Prog S (Unit {0}) → S → S
  ended (done a) s = s
  ended (throw e) s = s
  ended (set g p) s = ended p (g s)
  ended (emit e p) s = ended p s
  ended (await q k) s = ended (k (reply q)) s
  ended (ask d k) s = ended (k (choices d)) s

  -- The state after each task has run to its end, the first one first.
  pub drained : List (Task S C) → S → S
  drained [] s = s
  drained (waiting c q k ∷ ts) s = drained ts (ended (k (reply q)) s)

  -- A program that has just been resumed, with tasks behind it, runs to its end.
  ends :
      {m : Machine S C} (p : Prog S (Unit {0})) (c : C) (s : S) (ts : List (Task S C))
      → Reach enabled handler m
          (record { state = reached choices p s; tasks = left c choices p ++ ts })
      → Reach enabled handler m (record { state = ended p s; tasks = ts })
  unfolding reached left ended
  ends (done a) c s ts h = h
  ends (throw e) c s ts h = h
  ends (set g p) c s ts h = ends p c (g s) ts h
  ends (emit e p) c s ts h = ends p c s ts h
  ends (await q k) c s ts h =
      ends (k (reply q)) c s ts (later h (resume [] ts c q k choices (reply q)))
  ends (ask d k) c s ts h = ends (k (choices d)) c s ts h

  -- From every machine that is reached, the answers lead to one without tasks.
  pub Reach-drained :
      {m : Machine S C} (s : S) (ts : List (Task S C))
      → Reach enabled handler m (record { state = s; tasks = ts })
      → Reach enabled handler m (idle (drained ts s))
  unfolding drained
  Reach-drained s [] h = h
  Reach-drained s (waiting c q k ∷ ts) h =
      Reach-drained (ended (k (reply q)) s) ts
        (ends (k (reply q)) c s ts (later h (resume [] ts c q k choices (reply q))))
