-- ===== src/Client/Run.antt =====
-- A handler that runs to its end with no other handler in between. The environment is the server
-- and the user: an answer may depend on all that happened before, and any promise may reject.
use nova_server_manager.Common.{◌≡◌, refl, Bool, true, false, List, [], ◌∷◌}
use nova_server_manager.Client.Error.{Error, Result, ok, err}
use nova_server_manager.Client.Request.{Request, Answer, Dialog, Choice}
use nova_server_manager.Client.Effect.{
  Event, sent, asked, notified, error, Prog, done, throw, set, emit, await, ask, ◌>>=◌, catch,
  finally, settle, request, choose, update, notify, signal, skip,
}

-- The latest event comes first.
abbrev pub Log : Type 0
Log = List Event

pub record Env : Type 0 where
  pub answer : Log → (q : Request) → Result (Answer q)
  pub choice : Log → (d : Dialog) → Choice d

pub record Run (S A : Type 0) : Type 0 where
  pub result : Result A
  pub state : S
  pub log : Log

module _ {S A : Type 0} (env : Env) where
  unfoldable pub run : Prog S A → S → Log → Run S A
  run (done a) s l = record { result = ok a; state = s; log = l }
  run (throw e) s l = record { result = err e; state = s; log = l }
  run (set g p) s l = run p (g s) l
  run (emit e p) s l = run p s (e ∷ l)
  run (await q k) s l = run (k (env.answer l q)) s (sent q ∷ l)
  run (ask d k) s l = run (k (env.choice l d)) s (asked d ∷ l)

module _ {S A B : Type 0} (env : Env) where
  -- What follows an `await` runs from where it ended, and is skipped if it threw.
  unfoldable pub resume : Run S A → (A → Prog S B) → Run S B
  resume r f = elim r.result [
    | ok a ↦ run env (f a) r.state r.log
    | err e ↦ record { result = err e; state = r.state; log = r.log }
  ]

  pub run->>= :
      (m : Prog S A) (f : A → Prog S B) (s : S) (l : Log)
      → run env (m >>= f) s l ≡ resume (run env m s l) f
  unfolding run resume ◌>>=◌
  run->>= (done a) f s l = refl
  run->>= (throw e) f s l = refl
  run->>= (set g p) f s l = run->>= p f (g s) l
  run->>= (emit e p) f s l = run->>= p f s (e ∷ l)
  run->>= (await q k) f s l = run->>= (k (env.answer l q)) f s (sent q ∷ l)
  run->>= (ask d k) f s l = run->>= (k (env.choice l d)) f s (asked d ∷ l)

module _ {S A : Type 0} (env : Env) where
  unfoldable pub recover : Run S A → (Error → Prog S A) → Run S A
  recover r h = elim r.result [ ok a ↦ r | err e ↦ run env (h e) r.state r.log ]

  pub run-catch :
      (m : Prog S A) (h : Error → Prog S A) (s : S) (l : Log)
      → run env (catch m h) s l ≡ recover (run env m s l) h
  unfolding run recover catch
  run-catch (done a) h s l = refl
  run-catch (throw e) h s l = refl
  run-catch (set g p) h s l = run-catch p h (g s) l
  run-catch (emit e p) h s l = run-catch p h s (e ∷ l)
  run-catch (await q k) h s l = run-catch (k (env.answer l q)) h s (sent q ∷ l)
  run-catch (ask d k) h s l = run-catch (k (env.choice l d)) h s (asked d ∷ l)

-- The requests that were sent, the latest first.
unfoldable pub requests : Log → List Request
requests [] = []
requests (sent q ∷ l) = q ∷ requests l
requests (_ ∷ l) = requests l

-- Whether the latest event is a message of an error.
unfoldable pub shows_error : Log → Bool
shows_error (notified m error ∷ l) = true
shows_error _ = false

abbrev pub Succeeds {ℓ} : {A : Type ℓ} → Result A → Type ℓ
Succeeds {A} r = (a : A) × (r ≡ ok a)

-- To name on an `unfolding` line where a handler is run step by step.
unfoldable pub effects : Unit {0}
unfolding run settle request choose update notify signal skip catch finally ◌>>=◌
effects = tt
