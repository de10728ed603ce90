-- ===== src/Restore/Removal.antt =====
-- The removal of a restore's staging directory, `os.RemoveAll` in `RestoreBackup` of
-- internal/arcade/backup.go and `root.RemoveAll` in `recoverInterruptedRestores` of
-- internal/arcade/manager.go. It is not atomic: where it fails or the panel crashes, some of the
-- directory is gone, in an order that Go leaves open.
use teploy_arcade.Prelude.{
  nat_key, String, Bool, true, false, not, ◌&&◌, ◌||◌, none, some, List, [], ◌∷◌, if◌then◌else◌,
  ◌==◌, length, lookup, remove, insert, keys, string_key,
}
use teploy_arcade.Text.{bytes_key}
use teploy_arcade.Restore.Disk.{Meta, Disk, Fate}
use teploy_arcade.Restore.Swap.{Ending, swap, restored, discarded, kept}
use teploy_arcade.Restore.Recover.{is_none, recover}

-- One thing that is gone from the staging directory: an entry of `old`, or what it held down to the
-- content `c`; an entry of `new`; the journal; the marker.
pub data Removal (C : Type 0) : Type 0 where
  held_entry : String → Removal C
  held_content : String → C → Removal C
  extracted_entry : String → Removal C
  journal_file : Removal C
  marker_file : Removal C

module _ {C : Type 0} where
  unfoldable pub remove_part : Removal C → Disk C → Disk C
  remove_part (held_entry name) d = record d { held = remove name d.held }
  remove_part (held_content name c) d = elim (lookup name d.held) [
    | none ↦ d
    | some _ ↦ record d { held = insert name c d.held }
  ]
  remove_part (extracted_entry name) d = record d { extracted = remove name d.extracted }
  remove_part journal_file d = record d { journal = none }
  remove_part marker_file d = record d { committed = false }

  unfoldable pub remove_parts : List (Removal C) → Disk C → Disk C
  unfolding remove_part
  remove_parts [] d = d
  remove_parts (part ∷ parts) d = remove_parts parts (remove_part part d)

  -- The deferred removal of `RestoreBackup`, which `keepStaging` prevents; `gone` is what it removed.
  unfoldable pub after_removal : List (Removal C) → Ending × Disk C → Ending × Disk C
  unfolding remove_parts
  after_removal gone (restored, d) = (restored, remove_parts gone d)
  after_removal gone (discarded, d) = (discarded, remove_parts gone d)
  after_removal gone (kept, d) = (kept, d)

  -- `RestoreBackup` from the extracted archive on, with the removal at its end.
  unfoldable pub restore : Fate → Meta → List (Removal C) → Disk C → Ending × Disk C
  unfolding swap after_removal
  restore fate new_meta gone d = after_removal gone (swap fate new_meta d)

-- One start of the panel: whether the container is known to be stopped and the staging directory can
-- be read, how the changes turn out, and what the removal after a recovery that is over has removed.
pub record Boot (C : Type 0) : Type 0 where
  pub ready : Bool
  pub fate : Fate
  pub gone : List (Removal C)

module _ {C : Type 0} where
  unfoldable pub boot : Boot C → Disk C → Bool × Disk C
  unfolding recover remove_parts
  boot b d =
      let (over, e) = recover b.ready b.fate d in (over, if over then remove_parts b.gone e else e)

  -- Starts of the panel, one after the other, each on what the one before left; and whether the recovery
  -- of the last one was over.
  unfoldable pub recover_boots : List (Boot C) → Bool × Disk C → Bool × Disk C
  unfolding boot
  recover_boots [] r = r
  recover_boots (b ∷ boots) r = recover_boots boots (boot b r.1)

  -- There is nothing in the staging directory that a recovery acts on.
  unfoldable pub is_clear : Disk C → Bool
  is_clear d = is_none d.journal && length (keys d.held) == 0

  -- Where a removal from `d` to `e` took the marker, it left no journal and no held entry.
  unfoldable pub marker_last : Disk C → Disk C → Bool
  unfolding is_clear
  marker_last d e = not d.committed || e.committed || is_clear e

  unfoldable pub markers_last : List (Boot C) → Disk C → Bool
  unfolding marker_last boot
  markers_last [] d = true
  markers_last (b ∷ boots) d = marker_last d (boot b d).1 && markers_last boots (boot b d).1
