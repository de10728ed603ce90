-- ===== src/Restore/Tests.antt =====
-- A world of two entries, restored from an archive of two.
use teploy_arcade.Prelude.{
  ℕ, ◌≡◌, refl, ◌⊎◌, inl, inr, true, false, none, List, [], ◌∷◌, ◌++◌, arith, ltb,
}
use teploy_arcade.Prelude.Int.{pos}
use teploy_arcade.Restore.Boots.{
  WorldAfter, recover_boots-swap, recover-unmarked, recover_boots-ends,
}
use teploy_arcade.Restore.Crash.{swap-Ends}
use teploy_arcade.Restore.Disk.{Meta, Disk, Fate}
use teploy_arcade.Restore.Ends.{IsFresh, IsCommitted, Ends}
use teploy_arcade.Restore.Over.{IsBack}
use teploy_arcade.Restore.Recover.{recover}
use teploy_arcade.Restore.Recovery.{recover-IsRecoverable}
use teploy_arcade.Restore.Swap.{swap, restored}
use teploy_arcade.Restore.World.{Recoverable}
use teploy_arcade.Restore.Removal.{
  Removal, restore, Boot, recover_boots, marker_last, markers_last, held_entry, held_content,
  journal_file, marker_file,
}

abbrev old_meta : Meta
old_meta = record { port = pos 25565; max_players = pos 20; props = [] }

abbrev new_meta : Meta
new_meta = record { port = pos 25570; max_players = pos 10; props = [] }

abbrev server : Disk ℕ
server = record {
  live = ("world", 1) ∷ ("ops.json", 2) ∷ [];
  held = [];
  extracted = ("world", 7) ∷ ("plugins", 8) ∷ [];
  journal = none;
  committed = false;
  meta = old_meta;
}

-- The panel crashes after `n` changes.
abbrev crash_after : ℕ → Fate
crash_after n = record { goes = λ k. ltb k n; lands = λ k. false }

abbrev smooth : Fate
smooth = record { goes = λ k. true; lands = λ k. false }

server-IsFresh : IsFresh server
server-IsFresh = record { unlogged = refl; empty = λ n. refl; unmarked = refl }

-- The crash comes after the first entry of the archive was moved in.
abbrev crashed : Disk ℕ
crashed = (swap (crash_after 8) new_meta server).1

crashed-live : crashed.live ≡ ("world", 7) ∷ []
unfolding swap teploy_arcade.Restore.Disk.evacuate teploy_arcade.Prelude.lookup
    teploy_arcade.Prelude.remove teploy_arcade.Restore.Disk.install teploy_arcade.Prelude.insert
crashed-live = refl

swap-restored : (swap smooth new_meta server).0 ≡ restored
unfolding swap teploy_arcade.Restore.Disk.evacuate teploy_arcade.Prelude.lookup
    teploy_arcade.Prelude.remove teploy_arcade.Restore.Disk.install teploy_arcade.Prelude.insert
swap-restored = refl

-- The two originals are held, and the journal says that the archive is moving in.
crashed-IsRecoverable : Recoverable server.live old_meta crashed
unfolding swap teploy_arcade.Restore.Disk.evacuate teploy_arcade.Prelude.lookup
    teploy_arcade.Prelude.remove teploy_arcade.Restore.Disk.install teploy_arcade.Prelude.insert
crashed-IsRecoverable = elim kept_or_committed [
  | inl recoverable ↦ recoverable
  | inr committed ↦ absurd (let no : false ≡ true = committed.marked in ground arith)
]
  where
    kept_or_committed :
        Recoverable server.live old_meta crashed ⊎ IsCommitted new_meta server crashed
    kept_or_committed = swap-Ends (crash_after 8) new_meta server server-IsFresh

-- Two starts crash, a third finishes.
-- Two starts that crash, and what they remove is nothing.
abbrev disturbed : List (Boot ℕ)
disturbed =
    record { ready = true; fate = crash_after 1; gone = [] }
    ∷ record { ready = true; fate = crash_after 3; gone = [] }
    ∷ []

-- The restore went through, and the panel crashed when one held entry was removed. The next start
-- crashes with the journal and the marker left, and the one after removes everything.
abbrev cut_short : List (Removal ℕ)
cut_short = held_entry "world" ∷ []

abbrev starts : List (Boot ℕ)
starts =
    record { ready = true; fate = smooth; gone = held_content "ops.json" 0 ∷ [] }
    ∷ record {
      ready = true;
      fate = smooth;
      gone = held_entry "ops.json" ∷ journal_file ∷ marker_file ∷ [];
    }
    ∷ []

starts_ordered :
    (marker_last (swap smooth new_meta server).1 (restore smooth new_meta cut_short server).1
      ≡ true)
    × (markers_last starts (restore smooth new_meta cut_short server).1 ≡ true)
    × ((recover_boots starts (false, (restore smooth new_meta cut_short server).1)).0 ≡ true)
unfolding restore swap marker_last markers_last recover_boots teploy_arcade.Restore.Disk.evacuate
    teploy_arcade.Prelude.lookup teploy_arcade.Prelude.remove teploy_arcade.Restore.Disk.install
    teploy_arcade.Prelude.insert
starts_ordered = (refl, refl, refl)

recover_boots-swap_example :
    WorldAfter new_meta server
      (restore smooth new_meta cut_short server).0
      (recover_boots starts (false, (restore smooth new_meta cut_short server).1)).1
recover_boots-swap_example =
    recover_boots-swap new_meta server smooth cut_short starts server-IsFresh starts_ordered.0
      starts_ordered.1 starts_ordered.2

swap-Ends_example : Ends new_meta server (swap (crash_after 8) new_meta server)
swap-Ends_example = swap-Ends (crash_after 8) new_meta server server-IsFresh

recover-IsRecoverable_example :
    Recoverable server.live old_meta (recover true (crash_after 3) crashed).1
    × ((recover true (crash_after 3) crashed).0 ≡ true
        → IsBack server.live old_meta (recover true (crash_after 3) crashed).1)
recover-IsRecoverable_example =
    recover-IsRecoverable server.live old_meta true (crash_after 3) crashed crashed-IsRecoverable

recover_boots-ends_example :
    (recover_boots
      (disturbed ++ record { ready = true; fate = smooth; gone = [] } ∷ [])
      (false, crashed)).0
    ≡ true
recover_boots-ends_example = recover_boots-ends disturbed smooth [] (false, crashed) (λ n. refl)

recover-unmarked_example :
    ((recover true smooth (record (swap smooth new_meta server).1 { committed = false })).0 ≡ true)
    × IsBack server.live old_meta
        (recover true smooth (record (swap smooth new_meta server).1 { committed = false })).1
recover-unmarked_example =
    recover-unmarked new_meta server smooth smooth server-IsFresh swap-restored (λ n. refl)
