-- ===== src/Lifecycle/Quiet.antt =====
-- What a step does to the intents, in internal/arcade/manager.go and internal/arcade/lifecycle_intent.go.
use teploy_arcade.Prelude.{
  ℕ, ◌-◌, String, ◌≡◌, refl, sym, ◌∙◌, inl, inr, Bool, true, false, Option, none, some, ltb,
  if◌then◌else◌, Bool-cases, Option-cases, same_refl, same_cases, lookup, lookup-insert, string_key,
}
use teploy_arcade.Prelude.Int.{ℤ, pos}
use teploy_arcade.Text.{bytes_key}
use teploy_arcade.Lifecycle.State.{
  Status, Managed, Panel, put, save, is_down, stopped, starting, running, stopping, failed,
}
use teploy_arcade.Lifecycle.Exit.{
  Container, with_status, set_status, unbound, stopped_run, count_failure, fail, leave,
  process_exited, clear_failures, stop_begin, stop_failed, kill_failed, container_running,
  container_missing, container_stopped, container_unknown,
}
use teploy_arcade.Lifecycle.Start.{fail_window}

-- Whether a server is to run, and the number of the intent.
abbrev pub intent : Option Managed → Option (Option Bool × ℕ)
intent none = none
intent (some s) = some (s.desired, s.generation)

-- The intent in memory is the one in servers.json.
abbrev pub IsPersisted : Panel → Type 0
IsPersisted m = (id : String) → intent (lookup id m.disk) ≡ intent (lookup id m.servers)

-- A step that leaves every intent as it was.
abbrev pub SameIntents : Panel → Panel → Type 0
SameIntents m n = (id : String) → intent (lookup id n.servers) ≡ intent (lookup id m.servers)

abbrev pub IsQuiet : Panel → Panel → Type 0
IsQuiet m n = SameIntents m n × (IsPersisted m → IsPersisted n)

pub stay-IsQuiet : (m : Panel) → IsQuiet m m
stay-IsQuiet m = (λ id. refl, λ p. p)

pub chain-IsQuiet : (k m n : Panel) → IsQuiet k m → IsQuiet m n → IsQuiet k n
chain-IsQuiet k m n (same, kept) (same', kept') = (λ id. (same' id ∙ same id), λ p. kept' (kept p))

pub put-IsQuiet :
    (id : String) (s s' : Managed) (m : Panel)
    → lookup id m.servers ≡ some s
    → s'.desired ≡ s.desired
    → s'.generation ≡ s.generation
    → IsQuiet m (put id s' m)
put-IsQuiet id s s' m there desired generation =
    let same : SameIntents m (put id s' m) = (λ other. elim (same_cases id other) [
      | inl same ↦
          rw (← same, lookup-insert id id s' m.servers, same_refl id, there, desired, generation)
            refl
      | inr apart ↦ rw (lookup-insert id other s' m.servers, apart) refl
    ]) in
    (same, λ p other. (p other ∙ sym (same other)))

pub save-IsQuiet : (saved : Bool) (m : Panel) → IsQuiet m (save saved m)
save-IsQuiet true m = (λ id. refl, λ p id. refl)
save-IsQuiet false m = stay-IsQuiet m

pub put_there : (id : String) (s : Managed) (m : Panel) → lookup id (put id s m).servers ≡ some s
put_there id s m = rw (lookup-insert id id s m.servers, same_refl id) refl

with_status-desired :
    (status : Status) (code : ℤ) (reason : String) (now : ℕ) (s : Managed)
    → ((with_status status code reason now s).desired ≡ s.desired)
      × ((with_status status code reason now s).generation ≡ s.generation)
unfolding with_status
with_status-desired stopped code reason now s = (refl, refl)
with_status-desired starting code reason now s = (refl, refl)
with_status-desired running code reason now s = (refl, refl)
with_status-desired stopping code reason now s = (refl, refl)
with_status-desired failed code reason now s = (refl, refl)

-- The changes of one server that is registered.
module _ (now : ℕ) (saved : Bool) (id : String) (s : Managed) (m : Panel)
    (there : lookup id m.servers ≡ some s) where
  put-save-IsQuiet :
      (b : Bool) (s' : Managed)
      → (s'.desired ≡ s.desired) × (s'.generation ≡ s.generation)
      → IsQuiet m (save b (put id s' m))
  put-save-IsQuiet b s' (desired, generation) =
      chain-IsQuiet m (put id s' m) _ (put-IsQuiet id s s' m there desired generation)
        (save-IsQuiet b (put id s' m))

  pub set_status-IsQuiet :
      (status : Status) (code : ℤ) (reason : String)
      → IsQuiet m (set_status status code reason now saved id s m)
  unfolding set_status
  set_status-IsQuiet status code reason =
      put-save-IsQuiet _ _ (with_status-desired status code reason now s)

module _ (now : ℕ) (saved : Bool) (id : String) (s : Managed) (m : Panel)
    (there : lookup id m.servers ≡ some s) where
  put_status-IsQuiet :
      (status : Status) (code : ℤ) (reason : String) (s' : Managed)
      → (s'.desired ≡ s.desired) × (s'.generation ≡ s.generation)
      → IsQuiet m (set_status status code reason now saved id s' (put id s' m))
  put_status-IsQuiet status code reason s' (desired, generation) =
      chain-IsQuiet m (put id s' m) _ (put-IsQuiet id s s' m there desired generation)
        (set_status-IsQuiet now saved id s' (put id s' m) (put_there id s' m) status code reason)

  pub stopped_run-IsQuiet : IsQuiet m (stopped_run now saved id s m)
  unfolding stopped_run
  stopped_run-IsQuiet = put_status-IsQuiet stopped (pos 0) "" (unbound s) (refl, refl)

  count_failure-desired :
      ((count_failure now (unbound s)).desired ≡ s.desired)
      × ((count_failure now (unbound s)).generation ≡ s.generation)
  unfolding count_failure
  count_failure-desired = elim (Option-cases s.first_failure) [
    | inl first ↦ rw first (refl, refl)
    | inr (t, earlier) ↦ rw earlier (elim (Bool-cases (ltb fail_window (now - t))) [
      | inl later ↦ rw later (refl, refl)
      | inr within ↦ rw within (refl, refl)
    ])
  ]

  pub fail-IsQuiet : (code : ℤ) (reason : String) → IsQuiet m (fail now code reason saved id s m)
  unfolding fail
  fail-IsQuiet code reason =
      put_status-IsQuiet failed code reason (count_failure now (unbound s)) count_failure-desired

  pub clear_failures-IsQuiet : IsQuiet m (clear_failures saved id s m)
  unfolding clear_failures
  clear_failures-IsQuiet = put-save-IsQuiet now saved id s m there saved _ (refl, refl)

  pub stop_begin-IsQuiet : IsQuiet m (stop_begin now saved id s m)
  unfolding stop_begin
  stop_begin-IsQuiet = elim (Bool-cases (is_down s.status)) [
    | inl down ↦ rw down (stay-IsQuiet m)
    | inr up ↦ rw up (set_status-IsQuiet now saved id s m there stopping (pos 0) "")
  ]

  leave-IsQuiet :
      (status : Status) (exit : Option (ℤ × String))
      → IsQuiet m (leave status exit now saved id s m)
  unfolding leave
  leave-IsQuiet stopping none = stopped_run-IsQuiet
  leave-IsQuiet stopping (some e) = stopped_run-IsQuiet
  leave-IsQuiet starting none = fail-IsQuiet _ _
  leave-IsQuiet stopped none = stopped_run-IsQuiet
  leave-IsQuiet running none = stopped_run-IsQuiet
  leave-IsQuiet failed none = stopped_run-IsQuiet
  leave-IsQuiet starting (some (code, reason)) = fail-IsQuiet code reason
  leave-IsQuiet stopped (some (code, reason)) = fail-IsQuiet code reason
  leave-IsQuiet running (some (code, reason)) = fail-IsQuiet code reason
  leave-IsQuiet failed (some (code, reason)) = fail-IsQuiet code reason

  pub process_exited-IsQuiet :
      (exit : Option (ℤ × String)) → IsQuiet m (process_exited exit now saved id s m)
  unfolding process_exited
  process_exited-IsQuiet exit = leave-IsQuiet s.status exit

  either-IsQuiet :
      (b : Bool) (x y : Panel) → IsQuiet m x → IsQuiet m y → IsQuiet m (if b then x else y)
  either-IsQuiet true x y p q = p
  either-IsQuiet false x y p q = q

  status-IsQuiet :
      (status : Status) (code : ℤ) (reason : String)
      → IsQuiet m (set_status status code reason now saved id s m)
  status-IsQuiet = set_status-IsQuiet now saved id s m there

  pub stop_failed-IsQuiet :
      (container : Container) (reason : String)
      → IsQuiet m (stop_failed container reason now saved id s m)
  unfolding stop_failed
  stop_failed-IsQuiet container_running reason =
      either-IsQuiet _ _ _ (status-IsQuiet _ _ _) (status-IsQuiet running (pos 0) "")
  stop_failed-IsQuiet container_missing reason =
      either-IsQuiet _ _ _ (status-IsQuiet _ _ _) (status-IsQuiet _ _ _)
  stop_failed-IsQuiet container_stopped reason =
      either-IsQuiet _ _ _ (status-IsQuiet _ _ _) (status-IsQuiet _ _ _)
  stop_failed-IsQuiet container_unknown reason =
      either-IsQuiet _ _ _ (status-IsQuiet _ _ _) (stay-IsQuiet m)

  pub kill_failed-IsQuiet :
      (container : Container) → IsQuiet m (kill_failed container now saved id s m)
  unfolding kill_failed
  kill_failed-IsQuiet container_running =
      either-IsQuiet _ _ _ (fail-IsQuiet _ _) (status-IsQuiet running (pos 0) "")
  kill_failed-IsQuiet container_missing = either-IsQuiet _ _ _ (fail-IsQuiet _ _) (fail-IsQuiet _ _)
  kill_failed-IsQuiet container_stopped = either-IsQuiet _ _ _ (fail-IsQuiet _ _) (fail-IsQuiet _ _)
  kill_failed-IsQuiet container_unknown = either-IsQuiet _ _ _ (fail-IsQuiet _ _) (stay-IsQuiet m)
