-- ===== src/Restore/Rollback.antt =====
-- `rollbackRestoreJournal` of internal/arcade/backup.go puts the old world back, or leaves it
-- recoverable.
use teploy_arcade.Prelude.{
  ℕ, suc, String, ◌≡◌, refl, sym, ◌∙◌, ◌⊎◌, inl, inr, true, false, none, some, List, [], ◌∷◌, arith,
  if◌then◌else◌, ◌==◌, Bool-cases, Option-cases, same_refl, same_cases, contains, members-All,
  Assoc, lookup, lookup-remove, keys, keys_cases, string_key,
}
use teploy_arcade.Text.{bytes_key}
use teploy_arcade.Restore.Disk.{
  Meta, Journal, Disk, Fate, give_back, remove_live, write_journal, each_name, rolling_back,
}
use teploy_arcade.Restore.Swap.{restore_held, roll_back}
use teploy_arcade.Restore.Safe.{
  not_in_nil, Back, Away, IsSafe, each_name-keeps, either_clears, each_name-clears, give_back-held,
  give_back-IsSafe,
}
use teploy_arcade.Restore.World.{SameWorld, Recoverable}
use teploy_arcade.Restore.Undo.{weaken}
use teploy_arcade.Restore.Over.{old_same, IsBack, all_in_place}

-- What moves of entries leave alone.
abbrev pub SameRest : {C : Type 0} → Disk C → Disk C → Type 0
SameRest d e = (e.journal ≡ d.journal) × (e.meta ≡ d.meta) × (e.committed ≡ d.committed)

module _ {C : Type 0} where
  give_back_rest : (name : String) (d : Disk C) → SameRest d (give_back name d)
  unfolding give_back
  give_back_rest name d = elim (Option-cases (lookup name d.held)) [
    | inl away ↦ rw (away, give_back) (refl, refl, refl)
    | inr (c, there) ↦ rw (there, give_back) (refl, refl, refl)
  ]

  restore_held-held :
      (fate : Fate) (names : List String) (k : ℕ) (d : Disk C) (n : String)
      → (restore_held fate names k d).0 ≡ true
      → lookup n (restore_held fate names k d).1.held
        ≡ (if contains names n then none else lookup n d.held)
  unfolding restore_held contains
  restore_held-held fate [] k d n all_back = refl
  restore_held-held fate (name ∷ names) k d n all_back = elim (Bool-cases (fate.goes k)) [
    | inr stops ↦ absurd (let no : false ≡ true = rw stops at all_back in ground arith)
    | inl goes ↦
        let rest =
          restore_held-held fate names (suc k) (give_back name d) n (rw goes at all_back) in
        rw goes (rest ∙ either_clears (name == n) (contains names n) _ _ (give_back-held name n d))
  ]

  pub restore_held-keeps :
      (P : Disk C → Type 0)
      → ((name : String) (d : Disk C) → P d → P (give_back name d))
      → (fate : Fate) (names : List String) (k : ℕ) (d : Disk C) → P d
      → P (restore_held fate names k d).1
  unfolding restore_held
  restore_held-keeps P keep fate [] k d p = p
  restore_held-keeps P keep fate (name ∷ names) k d p = elim (Bool-cases (fate.goes k)) [
    | inr stops ↦ rw stops (restore_held-keeps P keep fate names (suc k) d p)
    | inl goes ↦
        rw goes (restore_held-keeps P keep fate names (suc k) (give_back name d) (keep name d p))
  ]

module _ {C : Type 0} (orig : Assoc String C) (model : Meta) (j : Journal) where
  -- Taking the installed entries away makes the world safe.
  abbrev pub Undoable : List String → Disk C → Type 0
  Undoable taken d =
      (n : String)
      → ((contains taken n ≡ true) × Away orig j.new d n)
        ⊎ ((contains taken n ≡ false) × (Back orig [] d n ⊎ Away orig [] d n))

  abbrev pub TrueBooks : Type 0
  TrueBooks = ((n : String) → contains j.original n ≡ contains (keys orig) n) × (j.old ≡ model)

  abbrev Rolling : Disk C → Type 0
  Rolling d =
      (d.journal ≡ some (record j { phase = rolling_back }))
      × (d.meta ≡ model)
      × (d.committed ≡ false)

  logged_back-Recoverable :
      (d : Disk C) → TrueBooks → Rolling d → IsSafe orig j.new d → Recoverable orig model d
  logged_back-Recoverable d (logged, old) (here, m, unmarked) safe = record {
    safe = rw here safe;
    books = record { logged = rw here logged; modelled = rw here old; unmarked = unmarked };
  }

  taken-IsSafe : (taken : List String) (d : Disk C) → Undoable taken d → IsSafe orig j.new d
  taken-IsSafe taken d undoable n = elim (undoable n) [
    | inl (listed, away) ↦ inr away
    | inr (unlisted, inl back) ↦ inl back
    | inr (unlisted, inr (held, inl free)) ↦ inr (held, inl free)
    | inr (unlisted, inr (held, inr new)) ↦ absurd (not_in_nil n new)
  ]

  remove_live-Undoable :
      (taken : List String) (name : String) (d : Disk C)
      → contains taken name ≡ true
      → Undoable taken d
      → Undoable taken (remove_live name d)
  remove_live-Undoable taken name d listed undoable n = elim (same_cases name n) [
    | inr other ↦ rw (lookup-remove name n d.live, other) (undoable n)
    | inl same ↦
        rw (← same, lookup-remove name name d.live, same_refl name)
          (elim (undoable name) [
            | inl (there, (held, place)) ↦ inl (there, (held, inl refl))
            | inr (unlisted, place) ↦
                absurd (let no : true ≡ false = sym listed ∙ unlisted in ground arith)
          ])
  ]

  all_taken :
      (fate : Fate) (taken : List String) (k : ℕ) (d : Disk C)
      → Undoable taken (each_name fate remove_live taken k d).2
      → (each_name fate remove_live taken k d).0 ≡ true
      → IsSafe orig [] (each_name fate remove_live taken k d).2
  all_taken fate taken k d undoable went n = elim (undoable n) [
    | inr (unlisted, safe) ↦ safe
    | inl (listed, (held, place)) ↦
        let gone =
          each_name-clears (λ (x : Disk C). x.live) remove_live
            (λ name m x. lookup-remove name m x.live) fate taken k d n went in
        inr (held, inl (gone ∙ rw listed refl))
  ]

  -- The entries are back, or as many as could be moved.
  held-IsBack :
      (fate : Fate) (k : ℕ) (d : Disk C)
      → TrueBooks
      → IsSafe orig [] d × Rolling d
      → (let r = restore_held fate (keys d.held) k d in
          Recoverable orig model r.1 × (r.0 ≡ true → IsBack orig model r.1))
  unfolding lookup
  held-IsBack fate k d books v =
      let r = restore_held fate (keys d.held) k d in
      let (safe, rolling) =
        restore_held-keeps (λ e. IsSafe orig [] e × Rolling e) one fate (keys d.held) k d v in
      (
        logged_back-Recoverable r.1 books rolling (weaken orig model j.new r.1 safe),
        λ all_back.
            (let emptied : SameWorld r.1.held [] = (λ n.
                restore_held-held fate (keys d.held) k d n all_back ∙ elim (keys_cases n d.held) [
                  | inl (listed, found) ↦ rw listed refl
                  | inr (unlisted, away) ↦ rw unlisted away
                ]) in
              record {
                world = all_in_place orig model r.1 safe emptied;
                emptied = emptied;
                old = old_same model r.1.meta rolling.1;
              }),
      )
    where
      one :
          (name : String) (x : Disk C)
          → IsSafe orig [] x × Rolling x
          → IsSafe orig [] (give_back name x) × Rolling (give_back name x)
      one name x (safe, (same, m, unmarked)) =
          let (journal, model', mark) = give_back_rest name x in
          (give_back-IsSafe orig [] name x safe, (journal ∙ same, model' ∙ m, mark ∙ unmarked))

  pub roll_back-IsRecoverable :
      (fate : Fate) (taken : List String) (k : ℕ) (d : Disk C)
      → TrueBooks
      → (d.meta ≡ model)
      → Recoverable orig model d
      → Undoable taken d
      → (let r = roll_back fate taken j k d in
          Recoverable orig model r.1 × (r.0 ≡ true → IsBack orig model r.1))
  unfolding roll_back
  roll_back-IsRecoverable fate taken k d books m v undoable = elim (Bool-cases (fate.goes k)) [
    | inr fails ↦ rw fails (elim (Bool-cases (fate.lands k)) [
      | inl lands ↦ rw lands (
        logged_back-Recoverable _ books (refl, m, v.books.unmarked) (taken-IsSafe taken d undoable),
        λ over. absurd (let no : false ≡ true = over in ground arith),
      )
      | inr lost ↦ rw lost (v, λ over. absurd (let no : false ≡ true = over in ground arith))
    ])
    | inl goes ↦
        let logged = write_journal (record j { phase = rolling_back }) d in
        let r = each_name fate remove_live taken (suc k) logged in
        let (left, rolling) =
          each_name-keeps (λ e. Undoable taken e × Rolling e) (λ name. contains taken name ≡ true)
            remove_live
            (λ name x listed after. (remove_live-Undoable taken name x listed after.0, after.1))
            fate taken (suc k) logged (members-All _ taken (λ name listed. listed))
            (undoable, (refl, m, v.books.unmarked)) in
        rw goes (elim (Bool-cases r.0) [
          | inr stopped ↦ rw stopped (
            logged_back-Recoverable r.2 books rolling (taken-IsSafe taken r.2 left),
            λ over. absurd (let no : false ≡ true = over in ground arith),
          )
          | inl went ↦ rw went (
              held-IsBack fate r.1 r.2 books
                (all_taken fate taken (suc k) logged left went, rolling))
        ])
  ]
