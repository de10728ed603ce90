-- ===== src/Restore/Remains.antt =====
-- The old world through the starts of the panel and the removals of the staging directory, in
-- internal/arcade/manager.go.
use teploy_arcade.Prelude.{
  String, ◌≡◌, refl, ap, ◌∙◌, ◌⊎◌, inl, inr, Bool, true, false, none, List, [], ◌∷◌, arith,
  Bool-cases, Assoc, lookup, string_key,
}
use teploy_arcade.Text.{bytes_key}
use teploy_arcade.Restore.Disk.{Meta, Disk}
use teploy_arcade.Restore.World.{Recoverable}
use teploy_arcade.Restore.Over.{IsBack}
use teploy_arcade.Restore.Recover.{recover}
use teploy_arcade.Restore.Recovery.{recover-IsRecoverable}
use teploy_arcade.Restore.Removal.{Removal, remove_parts, Boot, boot, recover_boots, is_clear}
use teploy_arcade.Restore.Parts.{IsPart, remove_parts-IsPart, no_entries, recover_clear}

-- The old world, which can be recovered or has been.
module _ {C : Type 0} (orig : Assoc String C) (model : Meta) where
  -- A recovery was over, and the journal is gone.
  pub record IsPast (d : Disk C) : Type 0 where
    pub back : IsBack orig model d
    pub unmarked : d.committed ≡ false
    pub unlogged : d.journal ≡ none

  abbrev pub OldState : Disk C → Type 0
  OldState d = Recoverable orig model d ⊎ IsPast d

  -- A start left such a state, with the old world back if the recovery was over.
  abbrev pub Leaves : Bool × Disk C → Type 0
  Leaves r = OldState r.1 × (r.0 ≡ true → IsBack orig model r.1)

  part-IsBack : (d e : Disk C) → IsPart d e → IsBack orig model d → IsBack orig model e
  unfolding lookup
  part-IsBack d e p back = record {
    world = λ n. (ap (lookup n) p.live ∙ back.world n);
    emptied = λ n. p.held n (back.emptied n);
    old = rw p.meta back.old;
  }

  -- A removal after a recovery that was over, or after a restore that gave up.
  pub removed-OldState :
      (parts : List (Removal C)) (d : Disk C)
      → Recoverable orig model d
      → IsBack orig model d
      → OldState (remove_parts parts d) × IsBack orig model (remove_parts parts d)
  unfolding lookup
  removed-OldState parts d v back =
      let e = remove_parts parts d in
      let p = remove_parts-IsPart parts d in
      let there = part-IsBack d e p back in
      (
        elim p.journal [
          | inl same ↦ inl (record {
            safe = λ n. inl (there.emptied n, there.world n);
            books = record {
              logged = rw same v.books.logged;
              modelled = rw (same, p.meta) v.books.modelled;
              unmarked = p.unmarked v.books.unmarked;
            };
          })
          | inr gone ↦
              inr (record { back = there; unmarked = p.unmarked v.books.unmarked; unlogged = gone })
        ],
        there,
      )

  boot-Recoverable : (b : Boot C) (d : Disk C) → Recoverable orig model d → Leaves (boot b d)
  unfolding boot
  boot-Recoverable b d v =
      let (next, over_back) = recover-IsRecoverable orig model b.ready b.fate d v in
      elim (Bool-cases (recover b.ready b.fate d).0) [
        | inr fails ↦
            rw fails (inl next, λ over. absurd (let no : false ≡ true = over in ground arith))
        | inl over ↦
            let (state, back) = removed-OldState b.gone _ next (over_back over) in
            rw over (state, λ _. back)
      ]

  remove_parts-IsPast :
      (parts : List (Removal C)) (d : Disk C) → IsPast d → IsPast (remove_parts parts d)
  remove_parts-IsPast parts d v =
      let p = remove_parts-IsPart parts d in
      record {
        back = part-IsBack d (remove_parts parts d) p v.back;
        unmarked = p.unmarked v.unmarked;
        unlogged = elim p.journal [ inl same ↦ same ∙ v.unlogged | inr gone ↦ gone ];
      }

  past_clear : (d : Disk C) → IsPast d → is_clear d ≡ true
  unfolding is_clear
  past_clear d v = rw (v.unlogged, no_entries d.held v.back.emptied) refl

  boot_past : (b : Boot C) (d : Disk C) → IsPast d → Leaves (boot b d)
  unfolding boot
  boot_past b d v =
      let same = recover_clear b.ready b.fate d (past_clear d v) in
      elim (Bool-cases (recover b.ready b.fate d).0) [
        | inr fails ↦ rw (fails, same) (inr v, λ _. v.back)
        | inl over ↦
            let next = remove_parts-IsPast b.gone d v in rw (over, same) (inr next, λ _. next.back)
      ]

  pub boots_old :
      (boots : List (Boot C)) (r : Bool × Disk C) → Leaves r → Leaves (recover_boots boots r)
  unfolding recover_boots
  boots_old [] r v = v
  boots_old (b ∷ boots) r (state, back) =
      boots_old boots (boot b r.1)
        (elim state [ inl v ↦ boot-Recoverable b r.1 v | inr v ↦ boot_past b r.1 v ])
