-- ===== src/Restore/Undo.antt =====
-- Recovery puts the world back, in internal/arcade/manager.go, also after it was interrupted itself.
use teploy_arcade.Prelude.{
  ℕ, String, ◌≡◌, refl, sym, ap, ◌∙◌, subst, ◌⊎◌, inl, inr, Bool, true, false, not, ◌&&◌, Option,
  none, some, List, [], ◌∷◌, arith, Bool-cases, Option-cases, same_refl, same_cases, All, contains,
  Assoc, lookup, lookup-remove, keys, keys_cases, string_key,
}
use teploy_arcade.Text.{bytes_key}
use teploy_arcade.Restore.Disk.{
  Meta, Phase, Journal, Disk, Fate, give_back, remove_live, each_name, evacuating, installing,
  rolling_back,
}
use teploy_arcade.Restore.Recover.{to_remove}
use teploy_arcade.Restore.Safe.{
  not_in_nil, IsSafe, each_name-keeps, each_name-clears, remove_live-IsSafe,
}

-- The names of the new world that may stand in the directory at a phase.
abbrev pub allowed_at : Phase → List String → List String
allowed_at evacuating new = []
allowed_at installing new = new
allowed_at rolling_back new = new

abbrev pub allowed : Option Journal → List String
allowed none = []
allowed (some j) = allowed_at j.phase j.new

module _ {C : Type 0} (orig : Assoc String C) (model : Meta) where
  -- What the journal says of the original world, from the phase on in which it is read.
  abbrev pub LoggedAt : Phase → List String → Type 0
  LoggedAt evacuating names = Unit
  LoggedAt installing names = (n : String) → contains names n ≡ contains (keys orig) n
  LoggedAt rolling_back names = (n : String) → contains names n ≡ contains (keys orig) n

  abbrev pub Logged : Option Journal → Type 0
  Logged none = Unit
  Logged (some j) = LoggedAt j.phase j.original

  -- Where the old model of the server can be found.
  abbrev pub Modelled : Option Journal → Meta → Type 0
  Modelled none m = m ≡ model
  Modelled (some j) m = j.old ≡ model

  pub record HasBooks (d : Disk C) : Type 0 where
    pub logged : Logged d.journal
    pub modelled : Modelled d.journal d.meta
    pub unmarked : d.committed ≡ false

  -- A restore that did not commit, at any point: the world is safe, and the journal is true.
  pub record IsRecoverable (d : Disk C) : Type 0 where
    pub safe : IsSafe orig (allowed d.journal) d
    pub books : HasBooks d

  pub weaken : (news : List String) (d : Disk C) → IsSafe orig [] d → IsSafe orig news d
  weaken news d safe n = elim (safe n) [
    | inl back ↦ inl back
    | inr (held, inl gone) ↦ inr (held, inl gone)
    | inr (held, inr new) ↦ absurd (not_in_nil n new)
  ]

  pub same_books :
      (d e : Disk C)
      → e.journal ≡ d.journal
      → e.meta ≡ d.meta
      → e.committed ≡ d.committed
      → HasBooks d
      → HasBooks e
  same_books d e j m c b = record {
    logged = rw j b.logged;
    modelled = rw (j, m) b.modelled;
    unmarked = rw c b.unmarked;
  }

  pub give_back-HasBooks : (name : String) (d : Disk C) → HasBooks d → HasBooks (give_back name d)
  unfolding give_back
  give_back-HasBooks name d b = elim (Option-cases (lookup name d.held)) [
    | inl away ↦ rw (away, give_back) b
    | inr (c, there) ↦ rw (there, give_back) (same_books d _ refl refl refl b)
  ]

  -- What recovery may take away, while the entries in `held` are held.
  abbrev Spare : Assoc String C → String → Type 0
  Spare held n = lookup n held ≡ none → lookup n orig ≡ none

  abbrev Cleared : Option Journal → Assoc String C → Disk C → Type 0
  Cleared j held d = IsSafe orig (allowed j) d × HasBooks d × (d.journal ≡ j) × (d.held ≡ held)

  remove_live-Cleared :
      (j : Option Journal) (held : Assoc String C) (name : String) (d : Disk C)
      → Spare held name
      → Cleared j held d
      → Cleared j held (remove_live name d)
  remove_live-Cleared j held name d spare (safe, books, e, h) = (
    remove_live-IsSafe orig (allowed j) name d
        (λ none_held. spare (sym (ap (lookup name) h) ∙ none_held)) safe,
    same_books d _ refl refl refl books,
    e,
    h,
  )

  to_remove-Spare :
      (held : Assoc String C) (original names : List String)
      → ((n : String) → contains original n ≡ contains (keys orig) n)
      → All (Spare held) (to_remove original (keys held) names)
  unfolding to_remove
  to_remove-Spare held original [] logged = tt
  to_remove-Spare held original (name ∷ names) logged =
      elim (Bool-cases (contains original name && not (contains (keys held) name))) [
        | inl back ↦ rw back (to_remove-Spare held original names logged)
        | inr goes ↦ rw goes (spare goes, to_remove-Spare held original names logged)
      ]
    where
      spare : (contains original name && not (contains (keys held) name)) ≡ false → Spare held name
      spare goes none_held = elim (keys_cases name orig) [
        | inr (known, none_orig) ↦ none_orig
        | inl (known, (c, there)) ↦ elim (keys_cases name held) [
          | inl (there_too, (k, held_there)) ↦
              absurd (let no : none ≡ some k = sym none_held ∙ held_there in ground arith)
          | inr (not_there, away) ↦
              absurd
                (let no : true ≡ false = rw (logged name, known, not_there) at goes in ground arith)
        ]
      ]

  -- After the removal went through, no name of the new world stands in the way of an original.
  contains-to_remove :
      (held : Assoc String C) (original names : List String) (n : String)
      → contains names n ≡ true
      → (contains original n && not (contains (keys held) n)) ≡ false
      → contains (to_remove original (keys held) names) n ≡ true
  unfolding to_remove contains
  contains-to_remove held original [] n new goes =
      absurd (let no : false ≡ true = new in ground arith)
  contains-to_remove held original (name ∷ names) n new goes = elim (same_cases name n) [
    | inl same ↦ rw (same, goes) (rw (same_refl n) refl)
    | inr other ↦
        let rest = contains-to_remove held original names n (rw other at new) goes in
        elim (Bool-cases (contains original name && not (contains (keys held) name))) [
          | inl back ↦ rw back rest
          | inr gone ↦ rw (gone, contains, other) rest
        ]
  ]

  original_lost :
      (original : List String) (held : Assoc String C) (n : String)
      → ((m : String) → contains original m ≡ contains (keys orig) m)
      → lookup n orig ≡ lookup n held
      → (contains original n && not (contains (keys held) n)) ≡ true
      → ⊥
  original_lost original held n logged same back = elim (keys_cases n orig) [
    | inr (unknown, none_orig) ↦
        let no : false ≡ true = rw (logged n, unknown) at back in ground arith
    | inl (known, (c, there)) ↦ elim (keys_cases n held) [
      | inl (listed, (k, held_there)) ↦
          let no : false ≡ true = rw (logged n, known, listed) at back in ground arith
      | inr (unlisted, none_held) ↦
          let no : none ≡ some c = sym none_held ∙ sym same ∙ there in ground arith
    ]
  ]

  cleared_world :
      (j : Journal) (d : Disk C) (fate : Fate) (k : ℕ)
      → ((n : String) → contains j.original n ≡ contains (keys orig) n)
      → IsSafe orig j.new
          (each_name fate remove_live (to_remove j.original (keys d.held) j.new) k d).2
      → (each_name fate remove_live (to_remove j.original (keys d.held) j.new) k d).2.held ≡ d.held
      → (each_name fate remove_live (to_remove j.original (keys d.held) j.new) k d).0 ≡ true
      → IsSafe orig [] (each_name fate remove_live (to_remove j.original (keys d.held) j.new) k d).2
  cleared_world j d fate k logged after held went n = elim (after n) [
    | inl back ↦ inl back
    | inr (away, inl free) ↦ inr (away, inl free)
    | inr (away, inr new) ↦
        elim (Bool-cases (contains j.original n && not (contains (keys d.held) n))) [
          | inr goes ↦
              let gone =
                each_name-clears (λ (x : Disk C). x.live) remove_live
                  (λ name m x. lookup-remove name m x.live) fate
                  (to_remove j.original (keys d.held) j.new) k d n went in
              let listed = contains-to_remove d.held j.original j.new n new goes in
              inr (away, inl (gone ∙ rw listed refl))
          | inl back ↦
              absurd (original_lost j.original d.held n logged (sym away ∙ ap (lookup n) held) back)
        ]
  ]

  -- The first part of a recovery: the world stays recoverable, and if the part went through, nothing of
  -- the new world is in the way.
  abbrev pub Undone : Disk C → Bool × ℕ × Disk C → Type 0
  Undone d r = IsRecoverable r.2 × ((r.0 ≡ false) ⊎ IsSafe orig [] r.2) × (r.2.held ≡ d.held)

  pub removed :
      (fate : Fate) (j : Journal) (d : Disk C)
      → d.journal ≡ some j
      → allowed_at j.phase j.new ≡ j.new
      → ((m : String) → contains j.original m ≡ contains (keys orig) m)
      → IsRecoverable d
      → Undone d (each_name fate remove_live (to_remove j.original (keys d.held) j.new) 1 d)
  removed fate j d here news logged v =
      let names = to_remove j.original (keys d.held) j.new in
      let r = each_name fate remove_live names 1 d in
      let start : Cleared (some j) d.held d =
        (subst (λ o. IsSafe orig (allowed o) d) here v.safe, v.books, here, refl) in
      let (safe, books, same, held) =
        each_name-keeps (Cleared (some j) d.held) (Spare d.held) remove_live
          (remove_live-Cleared (some j) d.held) fate names 1 d
          (to_remove-Spare d.held j.original j.new logged) start in
      (
        record { safe = subst (λ o. IsSafe orig (allowed o) r.2) (sym same) safe; books = books },
        (elim (Bool-cases r.0) [
          | inr stopped ↦ inl stopped
          | inl went ↦ inr (
              cleared_world j d fate 1 logged (subst (λ news'. IsSafe orig news' r.2) news safe)
                held went)
        ]),
        held,
      )
