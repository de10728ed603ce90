-- ===== src/Restore/Swap.antt =====
-- `RestoreBackup` from the moment the archive is extracted and checked: `rollbackRestore`, `restoreHeld`,
-- `rollbackRestoreJournal` and the swap of the two worlds, up to the deferred removal of the staging
-- directory, which is in Removal.
use teploy_arcade.Prelude.{
  string_key, ℕ, suc, ◌+◌, String, Bool, true, false, not, ◌&&◌, List, [], ◌∷◌, if◌then◌else◌, keys,
}
use teploy_arcade.Restore.Disk.{
  Meta, Journal, Disk, Fate, evacuate, install, give_back, remove_live, write_journal, set_meta,
  commit, after_write, each_name, evacuating, installing, rolling_back,
}

-- How a restore ends: it went through, was given up, or keeps its staging directory for recovery, which
-- is `keepStaging`. The removal in the first two cases is `after_removal` in Removal.
pub data Ending : Type 0 where
  restored discarded kept : Ending

-- The names that were done before the first failure.
unfoldable pub done_names : Fate → List String → ℕ → List String
done_names fate [] n = []
done_names fate (name ∷ names) n =
    let rest = done_names fate names (suc n) in if fate.goes n then name ∷ rest else []

module _ {C : Type 0} where
  -- `restoreHeld`: every entry is tried, whichever fail.
  unfoldable pub restore_held : Fate → List String → ℕ → Disk C → Bool × Disk C
  restore_held fate [] n d = (true, d)
  restore_held fate (name ∷ names) n d =
      let (all_back, d') =
        restore_held fate names (suc n) (if fate.goes n then give_back name d else d) in
      (fate.goes n && all_back, d')

  -- `rollbackRestoreJournal` and `rollbackRestore`: whether the world is back.
  unfoldable pub roll_back : Fate → List String → Journal → ℕ → Disk C → Bool × Disk C
  unfolding each_name restore_held
  roll_back fate installed j n d =
      let logged = after_write fate n (write_journal (record j { phase = rolling_back })) d in
      let (removed, m, d') = each_name fate remove_live installed (suc n) logged in
      let back = restore_held fate (keys d'.held) m d' in
      if not (fate.goes n) then (false, logged) else if not removed then (false, d') else back

  -- The staging directory is kept if the world could not be put back.
  abbrev pub after_rollback : Bool × Disk C → Ending × Disk C
  after_rollback (back, d) = (if back then discarded else kept, d)

  -- Both worlds are swapped. The model adopts the new properties, the directories are synced, and the
  -- marker is written last; every failure keeps the staging directory for recovery. Where another
  -- server took the archive's port in the meantime, the source also writes the panel's port into
  -- server.properties, which is left out.
  unfoldable pub finish_restore : Fate → Meta → ℕ → Disk C → Ending × Disk C
  finish_restore fate new_meta n d =
      let adopted = set_meta new_meta d in
      let marked = after_write fate (2 + n) commit adopted in
      if not (fate.goes n)
      then (kept, d)
      else if not (fate.goes (suc n))
      then (kept, adopted)
      else if not (fate.goes (2 + n))
      then (kept, marked)
      else (restored, marked)

  -- The phase is logged, the new world is listed and moved in.
  unfoldable pub install_world : Fate → Journal → Meta → ℕ → Disk C → Ending × Disk C
  unfolding each_name roll_back finish_restore done_names
  install_world fate j new_meta n d =
      let j' = record j { phase = installing } in
      let logged = after_write fate n (write_journal j') d in
      let names = keys d.extracted in
      let (installed, m, d') = each_name fate install names (2 + n) logged in
      if not (fate.goes n && fate.goes (suc n))
      then after_rollback (roll_back fate [] j' (2 + n) logged)
      else if not installed
      then after_rollback (roll_back fate (done_names fate names (2 + n)) j' m d')
      else finish_restore fate new_meta m d'

  -- The swap: the journal, twice, then the old world out, synced, then the new world in.
  unfoldable pub swap : Fate → Meta → Disk C → Ending × Disk C
  unfolding each_name roll_back install_world
  swap fate new_meta d =
      let j : Journal = record {
        phase = evacuating;
        original = [];
        new = keys d.extracted;
        old = d.meta;
      } in
      let j' : Journal = record j { original = keys d.live } in
      let d1 = after_write fate 0 (write_journal j) d in
      let d2 = after_write fate 1 (write_journal j') d1 in
      let (out, n, d3) = each_name fate evacuate (keys d.live) 2 d2 in
      if not (fate.goes 0)
      then (discarded, d1)
      else if not (fate.goes 1)
      then (discarded, d2)
      else if not out
      then after_rollback (roll_back fate [] j' n d3)
      else if not (fate.goes n)
      then (kept, d3)
      else install_world fate j' new_meta (suc n) d3
