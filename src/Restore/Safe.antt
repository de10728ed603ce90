-- ===== src/Restore/Safe.antt =====
-- What keeps a world recoverable while its entries move, in internal/arcade/backup.go and
-- internal/arcade/manager.go.
use teploy_arcade.Prelude.{
  ℕ, suc, String, ◌≡◌, refl, sym, ◌∙◌, ◌≢◌, ◌⊎◌, inl, inr, Bool, true, false, ◌||◌, Option, none,
  some, List, [], ◌∷◌, arith, if◌then◌else◌, ◌==◌, Bool-cases, Option-cases, same_refl, same_cases,
  All, contains, Assoc, lookup, lookup-remove, lookup-insert, string_key,
}
use teploy_arcade.Text.{bytes_key}
use teploy_arcade.Restore.Disk.{Disk, Fate, evacuate, install, give_back, remove_live, each_name}

pub not_in_nil : (name : String) → contains [] name ≢ true
unfolding contains
not_in_nil name h = absurd (let no : false ≡ true = h in ground arith)

-- An entry of the original world is in its place, or it is held and its place is free or taken by
-- the new world, whose names are `news`.
module _ {C : Type 0} (orig : Assoc String C) (news : List String) where
  abbrev pub Back : Disk C → String → Type 0
  Back d n = (lookup n d.held ≡ none) × (lookup n d.live ≡ lookup n orig)

  abbrev pub Away : Disk C → String → Type 0
  Away d n =
      (lookup n d.held ≡ lookup n orig) × ((lookup n d.live ≡ none) ⊎ (contains news n ≡ true))

  abbrev pub IsSafe : Disk C → Type 0
  IsSafe d = (n : String) → Back d n ⊎ Away d n

  abbrev pub IsOut : Disk C → Type 0
  IsOut d = (n : String) → Away d n

module _ {C : Type 0} where
  -- A change of one name at a time keeps what each change keeps, however far it gets.
  pub each_name-keeps :
      (P : Disk C → Type 0) (Q : String → Type 0) (change : String → Disk C → Disk C)
      → ((name : String) (d : Disk C) → Q name → P d → P (change name d))
      → (fate : Fate) (names : List String) (k : ℕ) (d : Disk C) → All Q names
      → P d
      → P (each_name fate change names k d).2
  unfolding each_name
  each_name-keeps P Q change keep fate [] k d q p = p
  each_name-keeps P Q change keep fate (name ∷ names) k d q p = elim (Bool-cases (fate.goes k)) [
    | inr stops ↦ rw stops p
    | inl goes ↦
        rw goes (
          each_name-keeps P Q change keep fate names (suc k) (change name d) q.1
            (keep name d q.0 p))
  ]

  pub either_clears :
      (b c : Bool) (x y : Option C)
      → y ≡ (if b then none else x)
      → (if c then none else y) ≡ (if b || c then none else x)
  either_clears true true x y e = refl
  either_clears true false x y e = e
  either_clears false true x y e = refl
  either_clears false false x y e = e

  -- What is gone, or empty, after all changes went through.
  pub each_name-clears :
      (look : Disk C → Assoc String C) (change : String → Disk C → Disk C)
      → ((name n : String) (d : Disk C)
          → lookup n (look (change name d)) ≡ (if name == n then none else lookup n (look d)))
      → (fate : Fate) (names : List String) (k : ℕ) (d : Disk C) (n : String)
      → (each_name fate change names k d).0 ≡ true
      → lookup n (look (each_name fate change names k d).2)
        ≡ (if contains names n then none else lookup n (look d))
  unfolding each_name contains
  each_name-clears look change clears fate [] k d n all_went = refl
  each_name-clears look change clears fate (name ∷ names) k d n all_went =
      elim (Bool-cases (fate.goes k)) [
        | inr stops ↦ absurd (let no : false ≡ true = rw stops at all_went in ground arith)
        | inl goes ↦ rw goes (
            let rest =
              each_name-clears look change clears fate names (suc k) (change name d) n
                (rw goes at all_went) in
            rest ∙ either_clears (name == n) (contains names n) _ _ (clears name n d))
      ]

  pub evacuate-live :
      (name n : String) (d : Disk C)
      → lookup n (evacuate name d).live ≡ (if name == n then none else lookup n d.live)
  unfolding evacuate
  evacuate-live name n d = elim (Option-cases (lookup name d.live)) [
    | inr (c, there) ↦ rw (there, evacuate) (lookup-remove name n d.live)
    | inl away ↦
        rw (away, evacuate)
          (elim (same_cases name n) [
            | inl same ↦ rw (same, same_refl n) (rw same at away)
            | inr other ↦ rw other refl
          ])
  ]

  pub give_back-held :
      (name n : String) (d : Disk C)
      → lookup n (give_back name d).held ≡ (if name == n then none else lookup n d.held)
  unfolding give_back
  give_back-held name n d = elim (Option-cases (lookup name d.held)) [
    | inr (c, there) ↦ rw (there, give_back) (lookup-remove name n d.held)
    | inl away ↦
        rw (away, give_back)
          (elim (same_cases name n) [
            | inl same ↦ rw (same, same_refl n) (rw same at away)
            | inr other ↦ rw other refl
          ])
  ]

  pub give_back-journal : (name : String) (d : Disk C) → (give_back name d).journal ≡ d.journal
  unfolding give_back
  give_back-journal name d = elim (Option-cases (lookup name d.held)) [
    | inr (c, there) ↦ rw (there, give_back) refl
    | inl away ↦ rw (away, give_back) refl
  ]

  -- A live entry that the new world does not name is the original.
  original_of :
      (orig : Assoc String C) (news : List String) (name : String) (c : C) (d : Disk C)
      → IsSafe orig news d
      → lookup name d.live ≡ some c
      → (contains news name ≢ true)
      → lookup name orig ≡ some c
  original_of orig news name c d safe there old = elim (safe name) [
    | inl (held, back) ↦ sym back ∙ there
    | inr (held, inl gone) ↦ absurd (let no : none ≡ some c = sym gone ∙ there in ground arith)
    | inr (held, inr new) ↦ absurd (old new)
  ]

  pub evacuate-IsSafe :
      (orig : Assoc String C) (name : String) (d : Disk C)
      → IsSafe orig [] d
      → IsSafe orig [] (evacuate name d)
  unfolding evacuate
  evacuate-IsSafe orig name d safe = elim (Option-cases (lookup name d.live)) [
    | inl away ↦ rw (away, evacuate) safe
    | inr (c, there) ↦
        rw (there, evacuate)
          (λ n. elim (same_cases name n) [
            | inr other ↦
                rw (lookup-insert name n c d.held, lookup-remove name n d.live, other) (safe n)
            | inl same ↦
                rw
                  (
                    ← same,
                    lookup-insert name name c d.held,
                    lookup-remove name name d.live,
                    same_refl name,
                  )
                  (inr (sym (original_of orig [] name c d safe there (not_in_nil name)), inl refl))
          ])
  ]

  -- A held entry is the original.
  held_original :
      (orig : Assoc String C) (news : List String) (name : String) (c : C) (d : Disk C)
      → IsSafe orig news d
      → lookup name d.held ≡ some c
      → lookup name orig ≡ some c
  held_original orig news name c d safe there = elim (safe name) [
    | inl (held, back) ↦ absurd (let no : none ≡ some c = sym held ∙ there in ground arith)
    | inr (held, place) ↦ sym held ∙ there
  ]

  pub give_back-IsSafe :
      (orig : Assoc String C) (news : List String) (name : String) (d : Disk C)
      → IsSafe orig news d
      → IsSafe orig news (give_back name d)
  unfolding give_back
  give_back-IsSafe orig news name d safe = elim (Option-cases (lookup name d.held)) [
    | inl away ↦ rw (away, give_back) safe
    | inr (c, there) ↦
        rw (there, give_back)
          (λ n. elim (same_cases name n) [
            | inr other ↦
                rw (lookup-insert name n c d.live, lookup-remove name n d.held, other) (safe n)
            | inl same ↦
                rw
                  (
                    ← same,
                    lookup-insert name name c d.live,
                    lookup-remove name name d.held,
                    same_refl name,
                  )
                  (inl (refl, sym (held_original orig news name c d safe there)))
          ])
  ]

  -- A live entry may be taken away unless it is an original that is not held.
  pub remove_live-IsSafe :
      (orig : Assoc String C) (news : List String) (name : String) (d : Disk C)
      → (lookup name d.held ≡ none → lookup name orig ≡ none)
      → IsSafe orig news d
      → IsSafe orig news (remove_live name d)
  remove_live-IsSafe orig news name d spare safe n = elim (same_cases name n) [
    | inr other ↦ rw (lookup-remove name n d.live, other) (safe n)
    | inl same ↦
        rw (← same, lookup-remove name name d.live, same_refl name)
          (elim (safe name) [
            | inl (held, back) ↦ inl (held, sym (spare held))
            | inr (held, place) ↦ inr (held, inl refl)
          ])
  ]

  pub install-IsOut :
      (orig : Assoc String C) (news : List String) (name : String) (d : Disk C)
      → contains news name ≡ true
      → IsOut orig news d
      → IsOut orig news (install name d)
  unfolding install
  install-IsOut orig news name d new out = elim (Option-cases (lookup name d.extracted)) [
    | inl away ↦ rw (away, install) out
    | inr (c, there) ↦
        rw (there, install)
          (λ n. elim (same_cases name n) [
            | inr other ↦ rw (lookup-insert name n c d.live, other) (out n)
            | inl same ↦ rw (← same) ((out name).0, inr new)
          ])
  ]

  pub remove_live-IsOut :
      (orig : Assoc String C) (news : List String) (name : String) (d : Disk C)
      → IsOut orig news d
      → IsOut orig news (remove_live name d)
  remove_live-IsOut orig news name d out n = elim (same_cases name n) [
    | inr other ↦ rw (lookup-remove name n d.live, other) (out n)
    | inl same ↦
        rw (← same, lookup-remove name name d.live, same_refl name) ((out name).0, inl refl)
  ]
