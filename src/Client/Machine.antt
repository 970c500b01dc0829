-- ===== src/Client/Machine.antt =====
-- How the handlers of a component interleave. JavaScript runs a handler up to its next `await`, then
-- other handlers run, and the answer of the server resumes it at some later time: the state of a
-- component has, beside it, the tasks that wait for an answer. Which handlers the user may start in a
-- state, the buttons that are not disabled, is `enabled`; a handler is made by the render of the
-- state in which it is started. A dialog that is asked twice with no `await` between has one answer.
pub mod Invariants
pub mod Exclusion
pub mod Draining
use mathlib.Core.Path.{subst}
use nova_server_manager.Common.{◌≡◌, Bool, true, List, [], ◌∷◌, ◌++◌}
use nova_server_manager.Client.Error.{Result}
use nova_server_manager.Client.Request.{Request, Answer, Dialog, Choice}
use nova_server_manager.Client.Effect.{Prog, done, throw, set, emit, await, ask}

-- A task waits for the answer to a request of the command that started it.
pub data Task (S C : Type 0) : Type 0 where
  waiting : C → (q : Request) → (Result (Answer q) → Prog S (Unit {0})) → Task S C

pub record Machine (S C : Type 0) : Type 0 where
  pub state : S
  pub tasks : List (Task S C)

abbrev pub Choices : Type 0
Choices = (d : Dialog) → Choice d

module _ {S : Type 0} where
  -- The state in which a program stops to wait, or ends.
  unfoldable pub reached : Choices → Prog S (Unit {0}) → S → S
  reached choices (done a) s = s
  reached choices (throw e) s = s
  reached choices (set g p) s = reached choices p (g s)
  reached choices (emit e p) s = reached choices p s
  reached choices (await q k) s = s
  reached choices (ask d k) s = reached choices (k (choices d)) s

module _ {S C : Type 0} where
  abbrev pub idle : S → Machine S C
  idle s = record { state = s; tasks = [] }

  -- What it leaves to wait: one task, or none.
  unfoldable pub left : C → Choices → Prog S (Unit {0}) → List (Task S C)
  left c choices (done a) = []
  left c choices (throw e) = []
  left c choices (set g p) = left c choices p
  left c choices (emit e p) = left c choices p
  left c choices (await q k) = waiting c q k ∷ []
  left c choices (ask d k) = left c choices (k (choices d))

  pub data Step (enabled : S → C → Bool) (handler : S → C → Prog S (Unit {0}))
      : Machine S C → Machine S C → Type 0 where
    start :
        {m : Machine S C} (c : C) (choices : Choices)
        → enabled m.state c ≡ true
        → Step enabled handler m (record {
          state = reached choices (handler m.state c) m.state;
          tasks = left c choices (handler m.state c) ++ m.tasks;
        })
    resume :
        {s : S} (before after : List (Task S C)) (c : C) (q : Request)
        (k : Result (Answer q) → Prog S (Unit {0})) (choices : Choices) (r : Result (Answer q))
        → Step enabled handler
            (record { state = s; tasks = before ++ waiting c q k ∷ after })
            (record {
              state = reached choices (k r) s;
              tasks = before ++ (left c choices (k r) ++ after);
            })

  pub data Reach (enabled : S → C → Bool) (handler : S → C → Prog S (Unit {0})) (m : Machine S C)
      : Machine S C → Type 0 where
    here : Reach enabled handler m m
    later :
        {n o : Machine S C}
        → Reach enabled handler m n
        → Step enabled handler n o
        → Reach enabled handler m o

  pub Reach-trans :
      {enabled : S → C → Bool} {handler : S → C → Prog S (Unit {0})} {m n o : Machine S C}
      → Reach enabled handler m n
      → Reach enabled handler n o
      → Reach enabled handler m o
  Reach-trans r here = r
  Reach-trans r (later t st) = later (Reach-trans r t) st

  -- To start a command whose handler is known.
  pub start_as :
      {enabled : S → C → Bool} {handler : S → C → Prog S (Unit {0})} (m : Machine S C) (c : C)
      (choices : Choices) (p : Prog S (Unit {0}))
      → handler m.state c ≡ p
      → enabled m.state c ≡ true
      → Step enabled handler m
          (record { state = reached choices p m.state; tasks = left c choices p ++ m.tasks })
  start_as {enabled} {handler} m c choices p e h =
      subst
        (λ q.
          Step enabled handler m
            (record { state = reached choices q m.state; tasks = left c choices q ++ m.tasks }))
        e (start c choices h)
