-- ===== src/Restore/World.antt =====
-- A recovery that is over has put back the world, in internal/arcade/manager.go.
use teploy_arcade.Prelude.{
  ℕ, suc, String, ◌≡◌, refl, sym, ap, ◌∙◌, subst, ◌⊎◌, inl, inr, true, false, Option, none, some,
  List, [], ◌∷◌, arith, Bool-cases, All, contains, Assoc, lookup, keys, keys_cases, string_key,
}
use teploy_arcade.Text.{bytes_key}
use teploy_arcade.Restore.Disk.{
  Meta, Phase, Journal, Disk, Fate, remove_live, write_journal, evacuating, installing,
  rolling_back,
}
use teploy_arcade.Restore.Recover.{undo_install, clear_way}
use teploy_arcade.Restore.Safe.{IsSafe, remove_live-IsSafe}
use teploy_arcade.Restore.Undo.{
  allowed_at, allowed, LoggedAt, Logged, Modelled, HasBooks, IsRecoverable, same_books, Undone,
  removed,
}

pub Phase-cases : (p : Phase) → (p ≡ evacuating) ⊎ ((p ≡ installing) ⊎ (p ≡ rolling_back))
Phase-cases evacuating = inl refl
Phase-cases installing = inr (inl refl)
Phase-cases rolling_back = inr (inr refl)

-- Two directories with the same entries.
abbrev pub SameWorld : {C : Type 0} → Assoc String C → Assoc String C → Type 0
SameWorld a b = (n : String) → lookup n a ≡ lookup n b

module _ {C : Type 0} (orig : Assoc String C) (model : Meta) where
  abbrev pub Books : Disk C → Type 0
  Books = HasBooks orig model

  abbrev pub Recoverable : Disk C → Type 0
  Recoverable = IsRecoverable orig model

  names_logged :
      (j : Journal) (d : Disk C)
      → d.journal ≡ some j
      → j.phase ≡ installing
      → Recoverable d
      → (n : String) → contains j.original n ≡ contains (keys orig) n
  names_logged j d here p v =
      subst (λ o. LoggedAt orig model o j.original) p
        (subst (Logged orig model) here v.books.logged)

  relogged :
      (j : Journal) (d : Disk C)
      → d.journal ≡ some j
      → j.phase ≡ installing
      → Recoverable d
      → Recoverable (write_journal (record j { phase = rolling_back }) d)
  relogged j d here p v = record {
    safe =
        subst (λ o. IsSafe orig (allowed_at o j.new) d) p
          (subst (λ o. IsSafe orig (allowed o) d) here v.safe);
    books = record {
      logged = names_logged j d here p v;
      modelled = subst (λ o. Modelled orig model o d.meta) here v.books.modelled;
      unmarked = v.books.unmarked;
    };
  }

  pub undone :
      (fate : Fate) (o : Option Journal) (d : Disk C)
      → d.journal ≡ o
      → Recoverable d
      → Undone orig model d (undo_install fate o d)
  unfolding undo_install
  undone fate none d here v = (v, inr (subst (λ o. IsSafe orig (allowed o) d) here v.safe), refl)
  undone fate (some j) d here v = elim (Phase-cases j.phase) [
    | inl p ↦ rw p (
      v,
      inr (
          subst (λ q. IsSafe orig (allowed_at q j.new) d) p
            (subst (λ o. IsSafe orig (allowed o) d) here v.safe)),
      refl,
    )
    | inr (inl p) ↦ rw p (elim (Bool-cases (fate.goes 0)) [
      | inl goes ↦ rw goes (
          removed orig model fate (record j { phase = rolling_back }) _ refl refl
            (names_logged j d here p v) (relogged j d here p v))
      | inr fails ↦ rw fails (elim (Bool-cases (fate.lands 0)) [
        | inl lands ↦ rw lands (relogged j d here p v, inl refl, refl)
        | inr lost ↦ rw lost (v, inl refl, refl)
      ])
    ])
    | inr (inr p) ↦ rw p (
        removed orig model fate j d here (ap (λ q. allowed_at q j.new) p)
          (subst (λ q. LoggedAt orig model q j.original) p
            (subst (Logged orig model) here v.books.logged))
          v)
  ]

  -- While the way is cleared, what is held stays held.
  pub clear_way-keeps :
      (held : Assoc String C) (o : Option Journal) (fate : Fate) (names : List String) (k : ℕ)
      (d : Disk C)
      → All (λ n. contains (keys held) n ≡ true) names
      → IsSafe orig [] d × Books d × (d.journal ≡ o) × (d.held ≡ held)
      → (let e = (clear_way fate names k d).1 in
          IsSafe orig [] e × Books e × (e.journal ≡ o) × (e.held ≡ held))
  unfolding clear_way
  clear_way-keeps held o fate [] k d listed v = v
  clear_way-keeps held o fate (name ∷ names) k d listed (safe, books, same, h) =
      elim (Bool-cases (fate.goes k)) [
        | inr fails ↦
            rw (fails, clear_way)
              (clear_way-keeps held o fate names (suc k) d listed.1 (safe, books, same, h))
        | inl goes ↦
            rw (goes, clear_way)
              (clear_way-keeps held o fate names (suc k) (remove_live name d) listed.1 (
                remove_live-IsSafe orig [] name d (held_spare name listed.0 h) safe,
                same_books orig model d _ refl refl refl books,
                same,
                h,
              ))
      ]
    where
      held_spare :
          (m : String)
          → contains (keys held) m ≡ true
          → d.held ≡ held
          → lookup m d.held ≡ none
          → lookup m orig ≡ none
      held_spare m listed e none_held = elim (keys_cases m held) [
        | inl (there, (c, found)) ↦
            absurd
              (let no : none ≡ some c = sym none_held ∙ ap (lookup m) e ∙ found in ground arith)
        | inr (not_there, away) ↦
            absurd (let no : true ≡ false = sym listed ∙ not_there in ground arith)
      ]
