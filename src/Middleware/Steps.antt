-- ===== src/Middleware/Steps.antt =====
-- How the chain of packages/middleware/src/index.ts runs: the trace and the Event Ledger are
-- carried from step to step, and a step passes, blocks the action, or rejects the promise.
use burkham_wickmont_operati.Core.Outcome.{NotOk}
use burkham_wickmont_operati.Core.Events.{Event}
use burkham_wickmont_operati.Prelude.{
  ◌++◌, List, false, [], ◌∷◌, true, Bool, if◌then◌else◌, refl, some, ◌≡◌, Option, none,
}

pub data MiddlewareStep : Type 0 where
  authentication tenant_scope authority_level firewall regulatory : MiddlewareStep
  event_emission compliance_scan : MiddlewareStep

pub data StepOutcome : Type 0 where
  passed skipped blocked : StepOutcome

pub record StepTrace : Type 0 where
  pub step : MiddlewareStep
  pub outcome : StepOutcome

abbrev pub Trace : Type 0
Trace = List StepTrace

-- the newest event first
abbrev pub Log : Type 0
Log = List Event

pub data Run (A : Type 0) : Type 0 where
  pass_on : A → Trace → Log → Run A
  block : NotOk → Trace → Log → Run A
  reject : Log → Run A

abbrev pub Step : Type 0 → Type 0
Step A = Trace → Log → Run A

-- one step, then the rest
abbrev pub and_then : {A B : Type 0} → Run A → (A → Step B) → Run B
and_then (pass_on a trace log) f = f a trace log
and_then (block x trace log) f = block x trace log
and_then (reject log) f = reject log

infixl 5 ◌>>=◌ ◌>>◌
abbrev pub ◌>>=◌ : {A B : Type 0} → Step A → (A → Step B) → Step B
◌>>=◌ m f trace log = and_then (m trace log) f

abbrev pub ◌>>◌ : {A B : Type 0} → Step A → Step B → Step B
m >> k = m >>= λ _. k

abbrev pub traced : MiddlewareStep → StepOutcome → Trace → Trace
traced s o trace = trace ++ record { step = s; outcome = o } ∷ []

module _ {A : Type 0} where
  abbrev pub pure : A → Step A
  pure a trace log = pass_on a trace log

  -- `blockAt`
  abbrev pub block_at : MiddlewareStep → NotOk → Step A
  block_at s NotOk.threw trace log = reject log
  block_at s x trace log = block x (traced s blocked trace) log

-- `trace.push`
abbrev pub push : MiddlewareStep → StepOutcome → Step (Unit {0})
push s o trace log = pass_on tt (traced s o trace) log

-- `await append(…)`; the argument says which appends succeed, and the others throw
abbrev pub append_event : (Event → Log → Bool) → Event → Step (Unit {0})
append_event accepts e trace log = if accepts e log then pass_on tt trace (e ∷ log) else reject log

-- `try { await append(…) } catch { … }`
abbrev pub try_append : (Event → Log → Bool) → Event → Step Bool
try_append accepts e trace log =
    if accepts e log then pass_on true trace (e ∷ log) else pass_on false trace log

-- What holds of a run, by how it ends; and the rule for one step followed by the rest.
abbrev pub Post :
    {A : Type 0} → (A → Trace → Log → Type 0) → (NotOk → Trace → Log → Type 0) → Run A → Type 0
Post P Q (pass_on a trace log) = P a trace log
Post P Q (block x trace log) = Q x trace log
Post P Q (reject log) = Unit

pub bind-Post :
    {A B : Type 0} (P : A → Trace → Log → Type 0) (P' : B → Trace → Log → Type 0)
    (Q : NotOk → Trace → Log → Type 0) (m : Run A) (f : A → Step B)
    → Post P Q m
    → ((a : A) (trace : Trace) (log : Log) → P a trace log → Post P' Q (f a trace log))
    → Post P' Q (and_then m f)
bind-Post P P' Q (pass_on a trace log) f h k = k a trace log h
bind-Post P P' Q (block x trace log) f h k = h
bind-Post P P' Q (reject log) f h k = tt

-- The step that a trace ends in.
abbrev pub last_step : Trace → Option MiddlewareStep
last_step [] = none
last_step (s ∷ []) = some s.step
last_step (s ∷ t ∷ ts) = last_step (t ∷ ts)

pub last_step-traced :
    (s : MiddlewareStep) (o : StepOutcome) (trace : Trace) → last_step (traced s o trace) ≡ some s
last_step-traced s o [] = refl
last_step-traced s o (x ∷ []) = refl
last_step-traced s o (x ∷ y ∷ ys) = last_step-traced s o (y ∷ ys)

-- The rule for a step that writes nothing to the Ledger.
pub keep-Post :
    {A B : Type 0} (R : A → Type 0) (P' : B → Trace → Log → Type 0)
    (Q : NotOk → Trace → Log → Type 0) (m : Run A) (f : A → Step B) (log : Log)
    → Post (λ a t l. (l ≡ log) × R a) Q m
    → ((a : A) (trace : Trace) → R a → Post P' Q (f a trace log))
    → Post P' Q (and_then m f)
keep-Post R P' Q (pass_on a trace l) f log h k = rw h.0 (k a trace h.1)
keep-Post R P' Q (block x trace l) f log h k = h
keep-Post R P' Q (reject l) f log h k = tt

pub weaken-Post :
    {A : Type 0} (P P' : A → Trace → Log → Type 0) (Q : NotOk → Trace → Log → Type 0) (m : Run A)
    → Post P Q m
    → ((a : A) (trace : Trace) (log : Log) → P a trace log → P' a trace log)
    → Post P' Q m
weaken-Post P P' Q (pass_on a trace l) h k = k a trace l h
weaken-Post P P' Q (block x trace l) h k = h
weaken-Post P P' Q (reject l) h k = tt
