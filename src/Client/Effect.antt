-- ===== src/Client/Effect.antt =====
-- What a handler of the panel does, as a tree: it sets state, makes requests and dialogs and waits
-- for their answers, and shows messages. A handler reads the values that its component had when it
-- was rendered (a JavaScript closure), so these are its arguments; a `set` takes the state of the
-- moment at which it runs.
use nova_server_manager.Common.{ℕ, Text}
use nova_server_manager.Client.Message.{Message}
use nova_server_manager.Client.Error.{Error, Result, ok, err}
use nova_server_manager.Client.Request.{Request, Answer, Dialog, Choice, User}
use nova_server_manager.Types.{NovaApp}

-- The kind of a message.
pub data Kind : Type 0 where
  success error info : Kind

-- The functions that a component is handed by its parent and that return nothing it waits for.
pub data Callback : Type 0 where
  close saved completed reload : Callback
  created : NovaApp → Callback
  authenticated : User → Callback

-- What the outside of the component sees.
pub data Event : Type 0 where
  sent : Request → Event
  asked : Dialog → Event
  notified : Message → Kind → Event
  navigated : Text → Event
  visited : Text → Event
  called : Callback → Event
  scheduled : (milliseconds : ℕ) → Event

pub data Prog (S A : Type 0) : Type 0 where
  done : A → Prog S A
  throw : Error → Prog S A
  set : (S → S) → Prog S A → Prog S A
  emit : Event → Prog S A → Prog S A
  await : (q : Request) → (Result (Answer q) → Prog S A) → Prog S A
  ask : (d : Dialog) → (Choice d → Prog S A) → Prog S A

module _ {S A B : Type 0} where
  -- `await` in the middle of an async function: an exception skips what follows.
  infixl 5 ◌>>=◌ ◌>>◌
  unfoldable pub ◌>>=◌ : Prog S A → (A → Prog S B) → Prog S B
  done a >>= f = f a
  throw e >>= f = throw e
  set g p >>= f = set g (p >>= f)
  emit e p >>= f = emit e (p >>= f)
  await q k >>= f = await q (λ r. k r >>= f)
  ask d k >>= f = ask d (λ c. k c >>= f)

  abbrev pub ◌>>◌ : Prog S A → Prog S B → Prog S B
  m >> n = m >>= λ _. n

module _ {S A : Type 0} where
  -- `try { p } catch (error) { handler(error) }`
  unfoldable pub catch : Prog S A → (Error → Prog S A) → Prog S A
  catch (done a) h = done a
  catch (throw e) h = h e
  catch (set g p) h = set g (catch p h)
  catch (emit e p) h = emit e (catch p h)
  catch (await q k) h = await q (λ r. catch (k r) h)
  catch (ask d k) h = ask d (λ c. catch (k c) h)

  -- `try { p } finally { last }`
  unfoldable pub finally : Prog S A → (Prog S A → Prog S A) → Prog S A
  finally (done a) last = last (done a)
  finally (throw e) last = last (throw e)
  finally (set g p) last = set g (finally p last)
  finally (emit e p) last = emit e (finally p last)
  finally (await q k) last = await q (λ r. finally (k r) last)
  finally (ask d k) last = ask d (λ c. finally (k c) last)

  unfoldable pub settle : Result A → Prog S A
  settle (ok a) = done a
  settle (err e) = throw e

module _ {S : Type 0} where
  unfoldable pub request : (q : Request) → Prog S (Answer q)
  unfolding settle
  request q = await q settle

  unfoldable pub choose : (d : Dialog) → Prog S (Choice d)
  choose d = ask d done

  unfoldable pub update : (S → S) → Prog S (Unit {0})
  update g = set g (done tt)

  unfoldable pub notify : Message → Kind → Prog S (Unit {0})
  notify message kind = emit (notified message kind) (done tt)

  unfoldable pub signal : Event → Prog S (Unit {0})
  signal e = emit e (done tt)

  unfoldable pub skip : Prog S (Unit {0})
  skip = done tt
