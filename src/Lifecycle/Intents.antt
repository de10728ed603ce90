-- ===== src/Lifecycle/Intents.antt =====
-- Every step keeps the intents in servers.json, and moves the generation of a server by one or not at
-- all, in internal/arcade/manager.go and internal/arcade/lifecycle_intent.go.
use teploy_arcade.Prelude.{
  nat_key, ℕ, suc, ◌%◌, ◌^◌, String, ◌≡◌, refl, sym, ap, ◌∙◌, subst, ◌⊎◌, inl, inr, Bool, true, not,
  ◌&&◌, Option, none, some, List, ◌==◌, Bool-cases, Option-cases, same_refl, same_cases, lookup,
  insert, lookup-insert, string_key,
}
use teploy_arcade.Text.{bytes_key}
use teploy_arcade.Lifecycle.State.{
  Managed, Panel, Refusal, put, save, require_registered, intend, persist_intent, no_such_server,
  recovery_required, done, refused,
}
use teploy_arcade.Lifecycle.Start.{live_conflict, bind_launch, launched, claim_launch, start_intent}
use teploy_arcade.Lifecycle.Quiet.{
  intent, IsPersisted, SameIntents, IsQuiet, stay-IsQuiet, put-IsQuiet, put_there,
}
use teploy_arcade.Ports.Geometry.{Binding, server_bindings}

abbrev pub number : Option (Option Bool × ℕ) → Option ℕ
number none = none
number (some (want, g)) = some g

abbrev pub generation_of : String → Panel → Option ℕ
generation_of id m = number (intent (lookup id m.servers))

-- A generation stays, or its successor comes, as the bits of an unsigned number.
abbrev pub Next : Option ℕ → Option ℕ → Type 0
Next a b = (b ≡ a) ⊎ ((g : ℕ) × ((a ≡ some g) × (b ≡ some (suc g % 2 ^ 64))))

abbrev pub IsMove : Panel → Panel → Type 0
IsMove m n =
    ((id : String) → Next (generation_of id m) (generation_of id n))
    × (IsPersisted m → IsPersisted n)

pub quiet-IsMove : (m n : Panel) → IsQuiet m n → IsMove m n
quiet-IsMove m n (same, kept) = (λ id. inl (ap number (same id)), kept)

-- An insertion of one server that is saved with all others.
saved-IsMove :
    (id : String) (s s' : Managed) (m : Panel)
    → lookup id m.servers ≡ some s
    → Next (some s.generation) (some s'.generation)
    → IsMove m (save true (put id s' m))
saved-IsMove id s s' m there next = (
  λ other. elim (same_cases id other) [
    | inl same ↦ rw (← same, lookup-insert id id s' m.servers, same_refl id, there) next
    | inr apart ↦ rw (lookup-insert id other s' m.servers, apart) (inl refl)
  ],
  λ p other. refl,
)

-- Two insertions of one server, of which the second takes the first back.
undone-IsQuiet :
    (id : String) (s s' s'' : Managed) (m : Panel)
    → lookup id m.servers ≡ some s
    → (s''.desired ≡ s.desired) × (s''.generation ≡ s.generation)
    → IsQuiet m (put id s'' (put id s' m))
undone-IsQuiet id s s' s'' m there (desired, generation) =
    let same : SameIntents m (put id s'' (put id s' m)) = (λ other. elim (same_cases id other) [
      | inl same ↦
          rw
            (
              ← same,
              lookup-insert id id s'' (insert id s' m.servers),
              same_refl id,
              there,
              desired,
              generation,
            )
            refl
      | inr apart ↦
          rw
            (
              lookup-insert id other s'' (insert id s' m.servers),
              lookup-insert id other s' m.servers,
              apart,
            )
            refl
    ]) in
    (same, λ p other. (p other ∙ sym (same other)))

pub chain-IsMove : (k m n : Panel) → IsQuiet k m → IsMove m n → IsMove k n
chain-IsMove k m n (same, kept) (next, kept') = (
  λ id. subst (λ a. Next a (generation_of id n)) (ap number (same id)) (next id),
  λ p. kept' (kept p),
)

pub registered_cases :
    (id : String) (m : Panel)
    → ((why : Refusal) × (require_registered id m ≡ refused why))
      ⊎ ((s : Managed) × ((lookup id m.servers ≡ some s) × (require_registered id m ≡ done s)))
unfolding require_registered
registered_cases id m = elim (Option-cases (lookup id m.servers)) [
  | inl away ↦ inl (no_such_server, rw (away, require_registered) refl)
  | inr (s, there) ↦ elim (Bool-cases (s.recovery == "")) [
    | inr needed ↦ inl (recovery_required, rw (there, require_registered, needed) refl)
    | inl fine ↦ inr (s, (there, rw (there, require_registered, fine) refl))
  ]
]

pub persist_intent-IsMove :
    (id : String) (want saved : Bool) (m : Panel) → IsMove m (persist_intent id want saved m).1
unfolding persist_intent
persist_intent-IsMove id want saved m = elim (registered_cases id m) [
  | inl (why, no_server) ↦ rw (no_server, persist_intent) (quiet-IsMove m m (stay-IsQuiet m))
  | inr (s, (there, found)) ↦
      rw (found, persist_intent)
        (elim (Bool-cases saved) [
          | inl written ↦
              rw written
                (saved-IsMove id s (intend want s) m there (inr (s.generation, (refl, refl))))
          | inr lost ↦
              rw lost
                (quiet-IsMove m _ (undone-IsQuiet id s (intend want s) _ m there (refl, refl)))
        ])
]

pub start_intent-IsMove :
    (id : String) (expected : ℕ) (saved : Bool) (m : Panel)
    → IsMove m (start_intent id expected saved m).1
unfolding start_intent
start_intent-IsMove id expected saved m = elim (Option-cases (lookup id m.servers)) [
  | inl away ↦ rw (away, start_intent) (quiet-IsMove m m (stay-IsQuiet m))
  | inr (s, there) ↦
      rw (there, start_intent)
        (elim (Bool-cases (expected == 0)) [
          | inl own ↦ rw own (persist_intent-IsMove id true saved m)
          | inr given ↦ rw given (quiet-IsMove m m (stay-IsQuiet m))
        ])
]

pub claim_launch-IsMove :
    (id : String) (expected : ℕ) (dynamic : List Binding) (now : ℕ) (saved : Bool) (s : Managed)
    (m : Panel)
    → lookup id m.servers ≡ some s
    → IsMove m (claim_launch id expected dynamic now saved s m).1
unfolding claim_launch
claim_launch-IsMove id expected dynamic now saved s m there =
    let s1 = bind_launch dynamic s in
    let m1 = put id s1 m in
    let bound = put-IsQuiet id s s1 m there refl refl in
    let kept = quiet-IsMove m m1 bound in
    elim (Option-cases (live_conflict id (server_bindings s1.geometry) m1.servers)) [
      | inr (name, conflict) ↦ rw (conflict, claim_launch) kept
      | inl free ↦
          rw (free, claim_launch)
            (elim (Bool-cases (not (expected == 0) && not (s.generation == expected))) [
              | inl stale ↦ rw stale kept
              | inr current ↦ rw current (
                  chain-IsMove m m1 _ bound (elim (Bool-cases saved) [
                    | inl written ↦
                        rw written
                          (saved-IsMove id s1 (launched now s1) m1 (put_there id s1 m) (inl refl))
                    | inr lost ↦
                        rw lost
                          (quiet-IsMove m1 _ (put-IsQuiet id s1 _ m1 (put_there id s1 m) refl refl))
                  ]))
            ])
    ]
