-- ===== src/Restore/Parts.antt =====
-- What a removal of the staging directory leaves alone, and a recovery that has nothing to do, in
-- internal/arcade/manager.go.
use teploy_arcade.Prelude.{
  nat_key, String, ◌≡◌, refl, sym, ap, ◌∙◌, ◌⊎◌, inl, inr, Bool, true, false, ◌&&◌, Option, none,
  some, List, [], ◌∷◌, arith, if◌then◌else◌, ◌==◌, Bool-cases, Option-cases, same_refl, same_cases,
  length, Assoc, lookup, lookup-remove, lookup-insert, keys, string_key,
}
use teploy_arcade.Text.{bytes_key}
use teploy_arcade.Restore.Disk.{Journal, Disk, Fate}
use teploy_arcade.Restore.Recover.{is_none, undo_install, recover}
use teploy_arcade.Restore.Removal.{
  Removal, remove_part, remove_parts, is_clear, held_entry, held_content, extracted_entry,
  journal_file, marker_file,
}
use teploy_arcade.Restore.World.{SameWorld}

-- What a removal never does.
pub record IsPart {C : Type 0} (d e : Disk C) : Type 0 where
  pub live : e.live ≡ d.live
  pub meta : e.meta ≡ d.meta
  pub journal : (e.journal ≡ d.journal) ⊎ (e.journal ≡ none)
  pub unmarked : d.committed ≡ false → e.committed ≡ false
  pub held : (n : String) → lookup n d.held ≡ none → lookup n e.held ≡ none

module _ {C : Type 0} where
  still_none : (b : Bool) (o : Option C) → o ≡ none → (if b then none else o) ≡ none
  still_none true o away = refl
  still_none false o away = away

  nothing_gone : (d : Disk C) → IsPart d d
  nothing_gone d = record {
    live = refl;
    meta = refl;
    journal = inl refl;
    unmarked = λ h. h;
    held = λ n away. away;
  }

  remove_part-IsPart : (part : Removal C) (d : Disk C) → IsPart d (remove_part part d)
  unfolding remove_part
  remove_part-IsPart (held_entry name) d = record {
    live = refl;
    meta = refl;
    journal = inl refl;
    unmarked = λ h. h;
    held = λ n away. lookup-remove name n d.held ∙ still_none (name == n) (lookup n d.held) away;
  }
  remove_part-IsPart (held_content name c) d = elim (Option-cases (lookup name d.held)) [
    | inl away ↦ rw (away, remove_part) (nothing_gone d)
    | inr (old, there) ↦
        rw (there, remove_part)
          (record {
            live = refl;
            meta = refl;
            journal = inl refl;
            unmarked = λ h. h;
            held = λ n away. elim (same_cases name n) [
              | inl same ↦ absurd (
                  let no : none ≡ some old =
                    sym away ∙ ap (λ m. lookup m d.held) (sym same) ∙ there in
                  ground arith)
              | inr other ↦ lookup-insert name n c d.held ∙ rw other away
            ];
          })
  ]
  remove_part-IsPart (extracted_entry name) d = record {
    live = refl;
    meta = refl;
    journal = inl refl;
    unmarked = λ h. h;
    held = λ n away. away;
  }
  remove_part-IsPart journal_file d = record {
    live = refl;
    meta = refl;
    journal = inr refl;
    unmarked = λ h. h;
    held = λ n away. away;
  }
  remove_part-IsPart marker_file d = record {
    live = refl;
    meta = refl;
    journal = inl refl;
    unmarked = λ h. refl;
    held = λ n away. away;
  }

  IsPart-trans : (d e f : Disk C) → IsPart d e → IsPart e f → IsPart d f
  IsPart-trans d e f p q = record {
    live = q.live ∙ p.live;
    meta = q.meta ∙ p.meta;
    journal = elim q.journal [
      | inr gone ↦ inr gone
      | inl same ↦ elim p.journal [ inl stays ↦ inl (same ∙ stays) | inr gone ↦ inr (same ∙ gone) ]
    ];
    unmarked = λ h. q.unmarked (p.unmarked h);
    held = λ n away. q.held n (p.held n away);
  }

  pub remove_parts-IsPart :
      (parts : List (Removal C)) (d : Disk C) → IsPart d (remove_parts parts d)
  unfolding remove_parts
  remove_parts-IsPart [] d = nothing_gone d
  remove_parts-IsPart (part ∷ parts) d =
      IsPart-trans d (remove_part part d) (remove_parts parts (remove_part part d))
        (remove_part-IsPart part d) (remove_parts-IsPart parts (remove_part part d))

-- A recovery of a directory in which there is nothing to act on does nothing.
module _ {C : Type 0} where
  pub no_entries : (a : Assoc String C) → SameWorld a [] → (length (keys a) == 0) ≡ true
  unfolding lookup
  no_entries [] none_there = refl
  no_entries ((name, c) ∷ others) none_there = absurd (
      let here : lookup name ((name, c) ∷ others) ≡ none = none_there name in
      let no : some c ≡ none = rw (same_refl name) at here in ground arith)

  no_lookups : (a : Assoc String C) → (length (keys a) == 0) ≡ true → SameWorld a []
  unfolding lookup
  no_lookups [] none_there n = refl
  no_lookups (e ∷ others) none_there n = absurd (ground arith)

  clear_parts :
      (d e : Disk C) (o : Option Journal)
      → d.journal ≡ o
      → IsPart d e
      → (is_none o && length (keys d.held) == 0) ≡ true
      → is_clear e ≡ true
  unfolding is_clear lookup
  clear_parts d e (some j) same p nothing = absurd (ground arith)
  clear_parts d e none same p nothing =
      let gone : e.journal ≡ none = (elim p.journal [ inl h ↦ h ∙ same | inr h ↦ h ]) in
      let empty : (length (keys e.held) == 0) ≡ true =
        no_entries e.held (λ n. p.held n (no_lookups d.held nothing n)) in
      rw (gone, empty) refl

  -- What is clear stays clear.
  pub remove_parts_clear :
      (parts : List (Removal C)) (d : Disk C)
      → is_clear d ≡ true
      → is_clear (remove_parts parts d) ≡ true
  unfolding is_clear
  remove_parts_clear parts d clear =
      clear_parts d (remove_parts parts d) d.journal refl (remove_parts-IsPart parts d) clear

  recover_idle :
      (ready : Bool) (fate : Fate) (d : Disk C) (o : Option Journal)
      → d.journal ≡ o
      → (is_none o && length (keys d.held) == 0) ≡ true
      → (recover ready fate d).1 ≡ d
  unfolding recover undo_install
  recover_idle ready fate d (some j) same nothing = absurd (ground arith)
  recover_idle ready fate d none same nothing = elim (Bool-cases ready) [
    | inr waits ↦ rw waits refl
    | inl starts ↦ elim (Bool-cases d.committed) [
      | inl marked ↦ simp (starts, marked) refl
      | inr unmarked ↦ simp (starts, unmarked, same, nothing) refl
    ]
  ]

  pub recover_clear :
      (ready : Bool) (fate : Fate) (d : Disk C) → is_clear d ≡ true → (recover ready fate d).1 ≡ d
  unfolding is_clear
  recover_clear ready fate d clear = recover_idle ready fate d d.journal refl clear

  pub recover_committed :
      (ready : Bool) (fate : Fate) (d : Disk C) → d.committed ≡ true → (recover ready fate d).1 ≡ d
  unfolding recover
  recover_committed ready fate d marked = elim (Bool-cases ready) [
    | inr waits ↦ rw waits refl
    | inl starts ↦ simp (starts, marked) refl
  ]
