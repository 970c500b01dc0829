-- ===== src/Client/Machine/Exclusion.antt =====
-- A flag such as `busy` that disables the buttons of some commands: of the tasks that these commands
-- leave, one waits while the flag is set, and none otherwise.
use nova_server_manager.Common.{
  ℕ, ◌+◌, ◌≡◌, refl, sym, ap, ◌∙◌, Bool, true, false, List, [], ◌∷◌, ◌++◌, All, arith, Bool-cases,
  inl, inr, if◌then◌else◌,
}
use nova_server_manager.Client.Error.{Result}
use nova_server_manager.Client.Request.{Request, Answer, Dialog, Choice}
use nova_server_manager.Client.Effect.{
  Event, Prog, done, throw, set, emit, await, ask, finally, ◌>>=◌, update,
}
use nova_server_manager.Client.Keeps.{
  Keeps, Anything, at_done, at_throw, at_set, at_emit, at_await, at_ask,
}
use nova_server_manager.Client.Machine.{
  Task, waiting, Machine, idle, Choices, reached, left, Step, start, resume, Reach, here, later,
}
use nova_server_manager.Client.Machine.Invariants.{reached-Keeps}

module _ {S : Type 0} (busy : S → Bool) where
  -- From this state the program waits only with the flag set, and ends only with the flag reset.
  abbrev pub Locks : Prog S (Unit {0}) → S → Type 0
  Locks (done a) s = busy s ≡ false
  Locks (throw e) s = busy s ≡ false
  Locks (set g p) s = Locks p (g s)
  Locks (emit e p) s = Locks p s
  Locks (await q k) s =
      (busy s ≡ true) × ((r : Result (Answer q)) (t : S) → busy t ≡ true → Locks (k r) t)
  Locks (ask d k) s = (c : _) → Locks (k c) s

  -- `try { m } finally { setBusy(false) }`, after the flag was set.
  pub Locks-finally :
      {m : Prog S (Unit {0})} (h : S → S)
      → ((s : S) → busy (h s) ≡ false)
      → Keeps Anything (λ s. busy s ≡ true) m
      → (s : S) → busy s ≡ true
      → Locks (finally m (λ p. update h >>= λ _. p)) s
  unfolding finally update ◌>>=◌
  Locks-finally h resets at_done s b = resets s
  Locks-finally h resets at_throw s b = resets s
  Locks-finally h resets (at_set {g} keep k) s b = Locks-finally h resets k (g s) (keep s b)
  Locks-finally h resets (at_emit k) s b = Locks-finally h resets k s b
  Locks-finally h resets (at_await k) s b = (b, λ r t c. Locks-finally h resets (k r tt) t c)
  Locks-finally h resets (at_ask k) s b = λ c. Locks-finally h resets (k c) s b

module _ {S : Type 0} {P : S → Type 0} where
  after_set : {g : S → S} {m : Prog S (Unit {0})} → Keeps Anything P (set g m) → Keeps Anything P m
  after_set (at_set keep k) = k

  after_emit :
      {e : Event} {m : Prog S (Unit {0})} → Keeps Anything P (emit e m) → Keeps Anything P m
  after_emit (at_emit k) = k

  after_await :
      {q : Request} {k : Result (Answer q) → Prog S (Unit {0})}
      → Keeps Anything P (await q k)
      → (r : Result (Answer q)) → Keeps Anything P (k r)
  after_await (at_await k) r = k r tt

  after_ask :
      {d : Dialog} {k : Choice d → Prog S (Unit {0})}
      → Keeps Anything P (ask d k)
      → (c : Choice d) → Keeps Anything P (k c)
  after_ask (at_ask k) c = k c

module _ {S C : Type 0} (busy : S → Bool) (guarded : C → Bool) where
  -- How many of the tasks are left by commands that the flag guards.
  abbrev pub holders : List (Task S C) → ℕ
  holders [] = 0
  holders (waiting c q k ∷ ts) = (if guarded c then 1 else 0) + holders ts

  abbrev GoesOn : Bool → (q : Request) → (Result (Answer q) → Prog S (Unit {0})) → Type 0
  GoesOn true q k = (r : Result (Answer q)) (t : S) → busy t ≡ true → Locks busy (k r) t
  GoesOn false q k = (b : Bool) (r : Result (Answer q)) → Keeps Anything (λ s. busy s ≡ b) (k r)

  abbrev Fine : Task S C → Type 0
  Fine (waiting c q k) = GoesOn (guarded c) q k

  -- What is invariant.
  abbrev Exclusive : S → List (Task S C) → Type 0
  Exclusive s ts = (holders ts ≡ (if busy s then 1 else 0)) × All Fine ts

  holders-append : (xs ys : List (Task S C)) → holders (xs ++ ys) ≡ holders xs + holders ys
  holders-append [] ys = omega arith
  holders-append (waiting c q k ∷ xs) ys = omega (arith, holders-append xs ys)

  All-append : (xs ys : List (Task S C)) → All Fine xs → All Fine ys → All Fine (xs ++ ys)
  All-append [] ys h k = k
  All-append (x ∷ xs) ys (p, h) k = (p, All-append xs ys h k)

  All-parts : (xs ys : List (Task S C)) → All Fine (xs ++ ys) → All Fine xs × All Fine ys
  All-parts [] ys h = (tt, h)
  All-parts (x ∷ xs) ys (p, h) = let (a, b) = All-parts xs ys h in ((p, a), b)

  module _ (c : C) (choices : Choices) where
    left-locked :
        (p : Prog S (Unit {0})) (s : S)
        → guarded c ≡ true
        → Locks busy p s
        → Exclusive (reached choices p s) (left c choices p)
    unfolding reached left
    left-locked (done a) s g h = (rw h refl, tt)
    left-locked (throw e) s g h = (rw h refl, tt)
    left-locked (set f p) s g h = left-locked p (f s) g h
    left-locked (emit e p) s g h = left-locked p s g h
    left-locked (await q k) s g (b, h) = (rw (g, b) refl, (rw g h, tt))
    left-locked (ask d k) s g h = left-locked (k (choices d)) s g (h (choices d))

    left-free :
        (p : Prog S (Unit {0}))
        → guarded c ≡ false
        → ((b : Bool) → Keeps Anything (λ s. busy s ≡ b) p)
        → (holders (left c choices p) ≡ 0) × All Fine (left c choices p)
    unfolding left
    left-free (done a) g h = (refl, tt)
    left-free (throw e) g h = (refl, tt)
    left-free (set f p) g h = left-free p g (λ b. after_set (h b))
    left-free (emit e p) g h = left-free p g (λ b. after_emit (h b))
    left-free (await q k) g h = (rw g refl, (rw g (λ b r. after_await (h b) r), tt))
    left-free (ask d k) g h = left-free (k (choices d)) g (λ b. after_ask (h b) (choices d))

  -- A task that holds the flag goes on while the flag is set, and no other one holds it.
  holding :
      (s : S) (n m : ℕ) → n + (1 + m) ≡ (if busy s then 1 else 0) → (busy s ≡ true) × (n + m ≡ 0)
  holding s n m count = ground arith

  resume-Exclusive :
      (s : S) (before after : List (Task S C)) (c : C) (q : Request)
      (k : Result (Answer q) → Prog S (Unit {0})) (choices : Choices) (r : Result (Answer q))
      → Exclusive s (before ++ waiting c q k ∷ after)
      → Exclusive (reached choices (k r) s) (before ++ (left c choices (k r) ++ after))
  resume-Exclusive s before after c q k choices r (count, fine) =
      let (a, b) = All-parts before (waiting c q k ∷ after) fine in
      let goes : GoesOn (guarded c) q k = b.0 in
      let good : All Fine after = b.1 in
      let parts = sym (holders-append before (waiting c q k ∷ after)) ∙ count in
      let rejoined =
        holders-append before (left c choices (k r) ++ after)
        ∙ ap (λ (n : ℕ). holders before + n) (holders-append (left c choices (k r)) after) in
      elim (Bool-cases (guarded c)) [
        | inl g ↦
            let (on, rest) = holding s (holders before) (holders after) (rw g at parts) in
            let locked = rw g at goes in
            let (one, fresh) = left-locked c choices (k r) s g (locked r s on) in
            (
              omega (arith, one, rest, rejoined),
              All-append before _ a (All-append (left c choices (k r)) after fresh good),
            )
        | inr g ↦
            let free = rw g at goes in
            let (zero, fresh) = left-free c choices (k r) g (λ b. free b r) in
            let same : busy (reached choices (k r) s) ≡ busy s =
              reached-Keeps (λ t. busy t ≡ busy s) choices s (free (busy s) r) refl in
            (
              rw same (omega (arith, zero, rw g at parts, rejoined)),
              All-append before _ a (All-append (left c choices (k r)) after fresh good),
            )
      ]

  module _ (enabled : S → C → Bool) (handler : S → C → Prog S (Unit {0}))
      (disables : (s : S) (c : C) → guarded c ≡ true → enabled s c ≡ true → busy s ≡ false)
      (locks : (s : S) (c : C) → guarded c ≡ true → busy s ≡ false → Locks busy (handler s c) s)
      (frees : (s : S) (c : C)
        → guarded c ≡ false
        → (b : Bool) → Keeps Anything (λ t. busy t ≡ b) (handler s c)) where
    start-Exclusive :
        (s : S) (ts : List (Task S C)) (c : C) (choices : Choices)
        → enabled s c ≡ true
        → Exclusive s ts
        → Exclusive (reached choices (handler s c) s) (left c choices (handler s c) ++ ts)
    start-Exclusive s ts c choices e (count, fine) = elim (Bool-cases (guarded c)) [
      | inl g ↦
          let quiet : busy s ≡ false = disables s c g e in
          let none : holders ts ≡ 0 = rw quiet at count in
          let (one, good) = left-locked c choices (handler s c) s g (locks s c g quiet) in
          (
            omega (arith, one, none, holders-append (left c choices (handler s c)) ts),
            All-append (left c choices (handler s c)) ts good fine,
          )
      | inr g ↦
          let (zero, good) = left-free c choices (handler s c) g (frees s c g) in
          let same : busy (reached choices (handler s c) s) ≡ busy s =
            reached-Keeps (λ t. busy t ≡ busy s) choices s (frees s c g (busy s)) refl in
          (
            rw same (omega (arith, count, zero, holders-append (left c choices (handler s c)) ts)),
            All-append (left c choices (handler s c)) ts good fine,
          )
    ]

    Step-Exclusive :
        {m n : Machine S C}
        → Step enabled handler m n
        → Exclusive m.state m.tasks
        → Exclusive n.state n.tasks
    Step-Exclusive (start {m} c choices e) h = start-Exclusive m.state m.tasks c choices e h
    Step-Exclusive (resume {s} before after c q k choices r) h =
        resume-Exclusive s before after c q k choices r h

    -- In every machine that is reached from one without tasks whose flag is not set, one task of the
    -- commands that the flag guards waits if it is set, and none if it is not.
    pub Reach-Exclusive :
        {s : S} {m : Machine S C}
        → busy s ≡ false
        → Reach enabled handler (idle s) m
        → Exclusive m.state m.tasks
    Reach-Exclusive quiet here = (rw quiet refl, tt)
    Reach-Exclusive quiet (later r st) = Step-Exclusive st (Reach-Exclusive quiet r)
