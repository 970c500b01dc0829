-- ===== src/Client/Machine/Invariants.antt =====
-- What every handler keeps that is started where it holds, holds in every machine that is reached, however
-- the handlers interleave.
use nova_server_manager.Common.{Bool, List, [], ◌∷◌, ◌++◌, All}
use nova_server_manager.Client.Error.{Result}
use nova_server_manager.Client.Request.{Answer}
use nova_server_manager.Client.Effect.{Prog}
use nova_server_manager.Client.Keeps.{
  Keeps, Anything, at_done, at_throw, at_set, at_emit, at_await, at_ask,
}
use nova_server_manager.Client.Machine.{
  Task, waiting, Machine, Choices, reached, left, Step, start, resume, Reach, here, later,
}

module _ {S : Type 0} (P : S → Type 0) where
  pub reached-Keeps :
      (choices : Choices) {p : Prog S (Unit {0})} (s : S)
      → Keeps Anything P p
      → P s
      → P (reached choices p s)
  unfolding reached
  reached-Keeps choices s at_done h = h
  reached-Keeps choices s at_throw h = h
  reached-Keeps choices s (at_set {g} keep k) h = reached-Keeps choices (g s) k (keep s h)
  reached-Keeps choices s (at_emit k) h = reached-Keeps choices s k h
  reached-Keeps choices s (at_await k) h = h
  reached-Keeps choices s (at_ask {d} k) h = reached-Keeps choices s (k (choices d)) h

module _ {S C : Type 0} (P : S → Type 0) where
  -- Whatever it is answered, the task goes on in a way that keeps the invariant.
  abbrev pub Steady : Task S C → Type 0
  Steady (waiting c q k) = (r : Result (Answer q)) → Keeps Anything P (k r)

  left-Keeps :
      (c : C) (choices : Choices) {p : Prog S (Unit {0})}
      → Keeps Anything P p
      → All Steady (left c choices p)
  unfolding left
  left-Keeps c choices at_done = tt
  left-Keeps c choices at_throw = tt
  left-Keeps c choices (at_set keep k) = left-Keeps c choices k
  left-Keeps c choices (at_emit k) = left-Keeps c choices k
  left-Keeps c choices (at_await k) = ((λ r. k r tt), tt)
  left-Keeps c choices (at_ask {d} k) = left-Keeps c choices (k (choices d))

  All-append : (xs ys : List (Task S C)) → All Steady xs → All Steady ys → All Steady (xs ++ ys)
  All-append [] ys h k = k
  All-append (x ∷ xs) ys (p, h) k = (p, All-append xs ys h k)

  All-parts : (xs ys : List (Task S C)) → All Steady (xs ++ ys) → All Steady xs × All Steady ys
  All-parts [] ys h = (tt, h)
  All-parts (x ∷ xs) ys (p, h) = let (a, b) = All-parts xs ys h in ((p, a), b)

  module _ (enabled : S → C → Bool) (handler : S → C → Prog S (Unit {0}))
      (keeps : (s : S) (c : C) → P s → Keeps Anything P (handler s c)) where
    Step-Steady :
        {m n : Machine S C}
        → Step enabled handler m n
        → P m.state × All Steady m.tasks
        → P n.state × All Steady n.tasks
    Step-Steady (start {m} c choices e) (h, hs) = (
      reached-Keeps P choices m.state (keeps m.state c h) h,
      All-append (left c choices (handler m.state c)) m.tasks
          (left-Keeps c choices (keeps m.state c h)) hs,
    )
    Step-Steady (resume {s} before after c q k choices r) (h, hs) =
        let (a, b) = All-parts before (waiting c q k ∷ after) hs in
        (
          reached-Keeps P choices s (b.0 r) h,
          All-append before _ a
              (All-append (left c choices (k r)) after (left-Keeps c choices (b.0 r)) b.1),
        )

    -- Every machine that is reached has the invariant, and its tasks keep it.
    pub Reach-Steady :
        {m n : Machine S C}
        → Reach enabled handler m n
        → P m.state × All Steady m.tasks
        → P n.state × All Steady n.tasks
    Reach-Steady here h = h
    Reach-Steady (later r st) h = Step-Steady st (Reach-Steady r h)
