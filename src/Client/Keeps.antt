-- ===== src/Client/Keeps.antt =====
-- Invariants of handlers: `Keeps Allowed P m` says that every state that `m` sets has `P` if the one
-- before it had, whatever the user answers, and whatever the server answers that is allowed. So `P` holds at the end, and also at every
-- moment in between, where other handlers run.
use nova_server_manager.Common.{Bool, true, false, if◌then◌else◌}
use nova_server_manager.Client.Message.{Message}
use nova_server_manager.Client.Error.{Error, Result, ok, err}
use nova_server_manager.Client.Request.{Request, Answer, Dialog, Choice}
use nova_server_manager.Client.Effect.{
  Kind, Event, Prog, done, throw, set, emit, await, ask, ◌>>=◌, catch, finally, settle, request,
  choose, update, notify, signal, skip,
}
use nova_server_manager.Client.Run.{Env, Log, run}

pub data Keeps {S A : Type 0} (Allowed : (q : Request) → Result (Answer q) → Type 0)
    (P : S → Type 0) : Prog S A → Type 0 where
  at_done : {a : A} → Keeps Allowed P (done a)
  at_throw : {e : Error} → Keeps Allowed P (throw e)
  at_set :
      {g : S → S} {m : Prog S A}
      → ((s : S) → P s → P (g s))
      → Keeps Allowed P m
      → Keeps Allowed P (set g m)
  at_emit : {e : Event} {m : Prog S A} → Keeps Allowed P m → Keeps Allowed P (emit e m)
  at_await :
      {q : Request} {k : Result (Answer q) → Prog S A}
      → ((r : Result (Answer q)) → Allowed q r → Keeps Allowed P (k r))
      → Keeps Allowed P (await q k)
  at_ask :
      {d : Dialog} {k : Choice d → Prog S A}
      → ((c : Choice d) → Keeps Allowed P (k c))
      → Keeps Allowed P (ask d k)

module _ {S A : Type 0} {Allowed : (q : Request) → Result (Answer q) → Type 0}
    {P : S → Type 0} where
  pub Keeps-run :
      {m : Prog S A}
      → Keeps Allowed P m
      → (env : Env) → ((l : Log) (q : Request) → Allowed q (env.answer l q))
      → (s : S) (l : Log) → P s
      → P (run env m s l).state
  unfolding run
  Keeps-run at_done env fits s l h = h
  Keeps-run at_throw env fits s l h = h
  Keeps-run (at_set {g} keep k) env fits s l h = Keeps-run k env fits (g s) l (keep s h)
  Keeps-run (at_emit k) env fits s l h = Keeps-run k env fits s _ h
  Keeps-run (at_await {q} k) env fits s l h =
      Keeps-run (k (env.answer l q) (fits l q)) env fits s _ h
  Keeps-run (at_ask {d} k) env fits s l h = Keeps-run (k (env.choice l d)) env fits s _ h

  pub Keeps-catch :
      {m : Prog S A} {h : Error → Prog S A}
      → Keeps Allowed P m
      → ((e : Error) → Keeps Allowed P (h e))
      → Keeps Allowed P (catch m h)
  unfolding catch
  Keeps-catch at_done h = at_done
  Keeps-catch (at_throw {e}) h = h e
  Keeps-catch (at_set keep k) h = at_set keep (Keeps-catch k h)
  Keeps-catch (at_emit k) h = at_emit (Keeps-catch k h)
  Keeps-catch (at_await k) h = at_await (λ r a. Keeps-catch (k r a) h)
  Keeps-catch (at_ask k) h = at_ask (λ c. Keeps-catch (k c) h)

  pub Keeps-finally :
      {m : Prog S A} {last : Prog S A → Prog S A}
      → Keeps Allowed P m
      → ((p : Prog S A) → Keeps Allowed P p → Keeps Allowed P (last p))
      → Keeps Allowed P (finally m last)
  unfolding finally
  Keeps-finally at_done h = h _ at_done
  Keeps-finally at_throw h = h _ at_throw
  Keeps-finally (at_set keep k) h = at_set keep (Keeps-finally k h)
  Keeps-finally (at_emit k) h = at_emit (Keeps-finally k h)
  Keeps-finally (at_await k) h = at_await (λ r a. Keeps-finally (k r a) h)
  Keeps-finally (at_ask k) h = at_ask (λ c. Keeps-finally (k c) h)

  pub Keeps-settle : (r : Result A) → Keeps Allowed P (settle r)
  unfolding settle
  Keeps-settle (ok a) = at_done
  Keeps-settle (err e) = at_throw

  pub Keeps-if :
      (b : Bool) {m n : Prog S A}
      → Keeps Allowed P m
      → Keeps Allowed P n
      → Keeps Allowed P (if b then m else n)
  Keeps-if true km kn = km
  Keeps-if false km kn = kn

module _ {S A B : Type 0} {Allowed : (q : Request) → Result (Answer q) → Type 0}
    {P : S → Type 0} where
  pub Keeps-bind :
      {m : Prog S A} {f : A → Prog S B}
      → Keeps Allowed P m
      → ((a : A) → Keeps Allowed P (f a))
      → Keeps Allowed P (m >>= f)
  unfolding ◌>>=◌
  Keeps-bind (at_done {a}) f = f a
  Keeps-bind at_throw f = at_throw
  Keeps-bind (at_set keep k) f = at_set keep (Keeps-bind k f)
  Keeps-bind (at_emit k) f = at_emit (Keeps-bind k f)
  Keeps-bind (at_await k) f = at_await (λ r a. Keeps-bind (k r a) f)
  Keeps-bind (at_ask k) f = at_ask (λ c. Keeps-bind (k c) f)

-- What follows a request may rest on what the answer is allowed to be.
module _ {S B : Type 0} {Allowed : (q : Request) → Result (Answer q) → Type 0}
    {P : S → Type 0} where
  pub Keeps-answered :
      (q : Request) {f : Answer q → Prog S B}
      → ((a : Answer q) → Allowed q (ok a) → Keeps Allowed P (f a))
      → Keeps Allowed P (request q >>= f)
  unfolding request settle ◌>>=◌
  Keeps-answered q {f} keep = at_await (λ r a. settled r a)
    where
      settled : (r : Result (Answer q)) → Allowed q r → Keeps Allowed P (settle r >>= f)
      settled (ok x) a = keep x a
      settled (err e) a = at_throw

module _ {S : Type 0} {Allowed : (q : Request) → Result (Answer q) → Type 0} {P : S → Type 0} where
  pub Keeps-request : (q : Request) → Keeps Allowed P (request q)
  unfolding request
  Keeps-request q = at_await (λ r _. Keeps-settle r)

  pub Keeps-choose : (d : Dialog) → Keeps Allowed P (choose d)
  unfolding choose
  Keeps-choose d = at_ask (λ c. at_done)

  pub Keeps-update : (g : S → S) → ((s : S) → P s → P (g s)) → Keeps Allowed P (update g)
  unfolding update
  Keeps-update g keep = at_set keep at_done

  pub Keeps-notify : (m : Message) (k : Kind) → Keeps Allowed P (notify m k)
  unfolding notify
  Keeps-notify m k = at_emit at_done

  pub Keeps-signal : (e : Event) → Keeps Allowed P (signal e)
  unfolding signal
  Keeps-signal e = at_emit at_done

  pub Keeps-skip : Keeps {S = S} Allowed P skip
  unfolding skip
  Keeps-skip = at_done

-- Any answer.
abbrev pub Anything : (q : Request) → Result (Answer q) → Type 0
Anything q r = Unit

pub ruleset keeps_rules = (
  Keeps-catch, Keeps-finally, Keeps-if, Keeps-bind, Keeps-request, Keeps-choose, Keeps-update,
  Keeps-notify, Keeps-signal, Keeps-skip,
)
