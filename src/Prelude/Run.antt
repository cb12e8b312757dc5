-- ===== src/Prelude/Run.antt =====
-- Runs against a server that the code does not own. A run keeps the history of the writes that it
-- asked for, newest first, and an answer may depend on that history. The monad threads the history
-- and stops at the first error.
use kpack.Prelude.Tests.{if◌then◌else◌}
use kpack.Prelude.Results.{Error, plain, panicked, message, is_not_found, Result, ok, err, returned}
use kpack.Prelude.Texts.{◌<>◌}
use mathlib.Core.List.{List, ◌∷◌}
use mathlib.Core.Option.{Option, none, some}
use Prim.Native.String.{String}

abbrev pub M : Type 0 → Type 0 → Type 0
M R A = List R → Result A × List R

infixl 5 ◌>>=◌ ◌>>◌
unfoldable pub ◌>>=◌ : {R : Type 0} {A B : Type 0} → M R A → (A → M R B) → M R B
◌>>=◌ m f h = let r = m h in elim r.0 [ ok a ↦ f a r.1 | err e ↦ (err e, r.1) ]

unfoldable pub ◌>>◌ : {R : Type 0} {B : Type 0} → M R (Unit {0}) → M R B → M R B
unfolding ◌>>=◌
m >> k = m >>= λ _. k

unfoldable pub pure : {R : Type 0} {A : Type 0} → A → M R A
pure a h = (ok a, h)

unfoldable pub throw : {R : Type 0} {A : Type 0} → Error → M R A
throw e h = (err e, h)

-- A value or an error that was computed without the server.
unfoldable pub lift : {R : Type 0} {A : Type 0} → Result A → M R A
lift r h = (r, h)

-- A read: a question that leaves no trace.
unfoldable pub ask : {R : Type 0} {A : Type 0} → (List R → Result A) → M R A
ask q h = (q h, h)

-- A write: asked for before it is answered.
unfoldable pub request : {R : Type 0} {A : Type 0} → R → (List R → Result A) → M R A
request r q h = (q h, r ∷ h)

abbrev pub done : Option Error → Result (Unit {0})
done none = ok tt
done (some e) = err e

-- A panic is no error to wrap: it goes through.
abbrev wrapped : {A : Type 0} → String → Result A → Result A
wrapped prefix (ok a) = ok a
wrapped prefix (err (panicked m)) = err (panicked m)
wrapped prefix (err e) = err (plain (prefix <> ": " <> message e))

-- `errors.Wrap` and `fmt.Errorf("prefix: %s", err)`.
unfoldable pub wrap : {R : Type 0} {A : Type 0} → String → M R A → M R A
wrap prefix m h = let r = m h in (wrapped prefix r.0, r.1)

-- `errors.WithMessage` with a text that names what came with the error.
abbrev with_message : {A : Type 0} → (Error → String) → Result A → Result A
with_message text (ok a) = ok a
with_message text (err (panicked m)) = err (panicked m)
with_message text (err e) = err (plain (text e <> ": " <> message e))

unfoldable pub wrap_by : {R : Type 0} {A : Type 0} → (Error → String) → M R A → M R A
wrap_by text m h = let r = m h in (with_message text r.0, r.1)

-- A read that may find nothing: other errors stop the run.
unfoldable pub optional : {R : Type 0} {A : Type 0} → M R A → M R (Option A)
optional m h =
    let r = m h in
    elim r.0 [
      | ok a ↦ (ok (some a), r.1)
      | err e ↦ if is_not_found e then (ok none, r.1) else (err e, r.1)
    ]

-- What a run returns to its caller, as a value that the caller looks at. A panic goes through.
unfoldable pub attempt : {R : Type 0} {A : Type 0} → M R A → M R (Result A)
attempt m h = let r = m h in (returned r.0, r.1)
