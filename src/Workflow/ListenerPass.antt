-- ===== src/Workflow/ListenerPass.antt =====
-- packages/workflow/src/listener.ts: one pass over the events that a tenant's Ledger holds between the
-- cursor and its tail. The tenants are an argument.
use burkham_wickmont_operati.Prelude.{
  true, some, leb, ltb, none, if◌then◌else◌, ◌==◌, filter, ◌≡◌, Bool, ◌+◌, Option, ◌∷◌, suc, refl,
  [], ℕ, str_eq, List, ◌&&◌, arith, inr, inl, max, Bool-cases, ==_iff, ◌∙◌, ap, leb→le, sym,
}
use burkham_wickmont_operati.Workflow.State.{finished, rejected, Invocation, Ran}
use burkham_wickmont_operati.Workflow.Listener.{
  Trigger, LedgerRow, fire_trigger, firing_rejected, ListenerState, FireOutcome, trigger_fired_once,
  resolve_waits, write_cursor, duplicate, tail_seq,
}

pub record PassCounts : Type 0 where
  pub events_processed : ℕ
  pub waits_resolved : ℕ
  pub triggers_fired : ℕ
  pub duplicates_skipped : ℕ

-- the counts; `none` is a rejected promise
abbrev pub Passed : Type 0
Passed = Option PassCounts × ListenerState

abbrev pub no_counts : PassCounts
no_counts = record {
  events_processed = 0;
  waits_resolved = 0;
  triggers_fired = 0;
  duplicates_skipped = 0;
}

abbrev pub count_fired : FireOutcome → PassCounts → PassCounts
count_fired trigger_fired_once n = record n { triggers_fired = suc n.triggers_fired }
count_fired duplicate n = record n { duplicates_skipped = suc n.duplicates_skipped }
count_fired _ n = n

-- the rest of a loop, unless the promise was rejected
abbrev pub onward : Passed → (PassCounts → ListenerState → Passed) → Passed
onward (none, s) f = (none, s)
onward (some n, s) f = f n s

abbrev pub after_firing : PassCounts → FireOutcome × ListenerState → Passed
after_firing n (firing_rejected, s) = (none, s)
after_firing n (o, s) = (some (count_fired o n), s)

unfoldable pub fire_triggers :
    Invocation → LedgerRow → List Trigger → PassCounts → ListenerState → Passed
unfolding fire_trigger
fire_triggers run e [] n s = (some n, s)
fire_triggers run e (t ∷ ts) n s =
    onward (after_firing n (fire_trigger run t e s)) (λ n' s'. fire_triggers run e ts n' s')

abbrev pub after_waits : PassCounts → ListenerState → Ran ℕ → Passed
after_waits n s (rejected es) = (none, record s { engine = es })
after_waits n s (finished k es) = (
  some (record n {
    events_processed = suc n.events_processed;
    waits_resolved = n.waits_resolved + k;
  }),
  record s { engine = es },
)

-- the body of the loop over the events; `triggers` were read before it
unfoldable pub handle_event :
    Invocation → List Trigger → LedgerRow → PassCounts → ListenerState → Passed
unfolding resolve_waits fire_triggers
handle_event run triggers e n s = onward (after_waits n s (resolve_waits run e s.engine)) (λ n' s'.
    fire_triggers run e (filter (λ (t : Trigger). str_eq t.event_type e.type) triggers) n' s')

unfoldable pub handle_events :
    Invocation → List Trigger → List LedgerRow → PassCounts → ListenerState → Passed
unfolding handle_event
handle_events run triggers [] n s = (some n, s)
handle_events run triggers (e ∷ es) n s =
    onward (handle_event run triggers e n s) (λ n' s'. handle_events run triggers es n' s')

abbrev pub is_unhandled : ℕ → ℕ → ℕ → LedgerRow → Bool
is_unhandled tenant seq_read tail r =
    r.tenant_id == tenant && (ltb seq_read r.seq && leb r.seq tail)

abbrev pub enabled_triggers : ℕ → List Trigger → List Trigger
enabled_triggers tenant = filter (λ (t : Trigger). t.tenant_id == tenant && t.enabled)

unfoldable pub handle_tenant : Invocation → ℕ → PassCounts → ListenerState → Passed
unfolding handle_events
handle_tenant run tenant n s =
    let tail = tail_seq tenant s.ledger in
    if leb tail (s.cursor tenant)
    then (some n, s)
    else onward
        (handle_events run (enabled_triggers tenant s.triggers)
          (filter (is_unhandled tenant (s.cursor tenant) tail) s.ledger) n s)
        (λ n' s'. (some n', write_cursor tenant tail s'))

unfoldable pub listener_pass : Invocation → List ℕ → PassCounts → ListenerState → Passed
unfolding handle_tenant
listener_pass run [] n s = (some n, s)
listener_pass run (tenant ∷ tenants) n s =
    onward (handle_tenant run tenant n s) (λ n' s'. listener_pass run tenants n' s')

cursor_written :
    (tenant tail : ℕ) (m : Passed) {n' : PassCounts} {s' : ListenerState}
    → onward m (λ n s. (some n, write_cursor tenant tail s)) ≡ (some n', s')
    → s'.cursor tenant ≡ tail
cursor_written tenant tail (none, s) e = cc
cursor_written tenant tail (some n, s) {n'} {s'} e =
    sym (ap (λ (x : Passed). x.1.cursor tenant) e)
    ∙ here (tenant == tenant) ((==_iff tenant tenant).1 refl)
  where
    here : (b : Bool) → b ≡ true → (if b then tail else s.cursor tenant) ≡ tail
    here b h = rw h refl

-- After a turn that ends normally, the tenant's cursor stands at the tail that the turn began with,
-- or where it was when that is further: it never goes back, whatever the turn appended.
handle_tenant-cursor :
    (run : Invocation) (tenant : ℕ) (n n' : PassCounts) (s s' : ListenerState)
    → handle_tenant run tenant n s ≡ (some n', s')
    → s'.cursor tenant ≡ max (s.cursor tenant) (tail_seq tenant s.ledger)
unfolding handle_tenant
handle_tenant-cursor run tenant n n' s s' e =
    elim (Bool-cases (leb (tail_seq tenant s.ledger) (s.cursor tenant))) [
      | inl caught_up ↦
          omega (
            arith,
            ap (λ (x : Passed). x.1.cursor tenant) (rw caught_up at e),
            leb→le _ _ caught_up,
          )
      | inr behind ↦
          let written =
            cursor_written tenant (tail_seq tenant s.ledger)
              (handle_events run (enabled_triggers tenant s.triggers)
                (filter (is_unhandled tenant (s.cursor tenant) (tail_seq tenant s.ledger)) s.ledger)
                n s)
              (rw behind at e) in
          ground (arith, written)
    ]
