-- ===== src/Restore/Recover.antt =====
-- `recoverInterruptedRestores` of internal/arcade/manager.go for one staging directory.
use teploy_arcade.Prelude.{
  nat_key, Bytes, ℕ, suc, String, Bool, true, false, not, ◌&&◌, Option, none, some, List, [], ◌∷◌,
  if◌then◌else◌, ◌==◌, length, contains, lookup, keys, string_key,
}
use teploy_arcade.Prelude.Int.{int_key, ℤ, pos}
use teploy_arcade.Text.{atoi, bytes_key}
use teploy_arcade.Restore.Disk.{
  Meta, Phase, Journal, Disk, Fate, give_back, remove_live, write_journal, set_meta, after_write,
  each_name, evacuating, installing, rolling_back,
}

-- The names that a rollback takes away: those of the new world, but no original that is back.
unfoldable pub to_remove : List String → List String → List String → List String
to_remove original held [] = []
to_remove original held (name ∷ names) =
    let rest = to_remove original held names in
    if contains original name && not (contains held name) then rest else name ∷ rest

abbrev pub needs_removal : Phase → Bool
needs_removal evacuating = false
needs_removal installing = true
needs_removal rolling_back = true

abbrev pub is_installing : Phase → Bool
is_installing installing = true
is_installing evacuating = false
is_installing rolling_back = false

-- "max-players"
abbrev max_players_key : Bytes
max_players_key = 109 ∷ 97 ∷ 120 ∷ 45 ∷ 112 ∷ 108 ∷ 97 ∷ 121 ∷ 101 ∷ 114 ∷ 115 ∷ []

abbrev number_or_zero : Option Bytes → ℤ
number_or_zero none = pos 0
number_or_zero (some s) = atoi s

-- The model as the journal has it; an old journal has no number of players.
unfoldable pub recovered_meta : Option Journal → Meta → Meta
recovered_meta none m = m
recovered_meta (some j) m = record {
  port = j.old.port;
  props = j.old.props;
  max_players =
      if j.old.max_players == pos 0
      then number_or_zero (lookup max_players_key j.old.props)
      else j.old.max_players;
}

abbrev pub is_none {ℓ} : {A : Type ℓ} → Option A → Bool
is_none none = true
is_none (some a) = false

module _ {C : Type 0} where
  -- Before the held entries go back, the phase is logged and the new world taken away.
  unfoldable pub undo_install : Fate → Option Journal → Disk C → Bool × ℕ × Disk C
  unfolding to_remove each_name
  undo_install fate none d = (true, 0, d)
  undo_install fate (some j) d =
      let logged = after_write fate 0 (write_journal (record j { phase = rolling_back })) d in
      let start = if is_installing j.phase then logged else d in
      let undone = each_name fate remove_live (to_remove j.original (keys d.held) j.new) 1 start in
      if not (needs_removal j.phase)
      then (true, 1, d)
      else if is_installing j.phase && not (fate.goes 0)
      then (false, 1, logged)
      else undone

  -- The live entries that block the way of held ones; a failure to remove one is not looked at.
  unfoldable pub clear_way : Fate → List String → ℕ → Disk C → ℕ × Disk C
  clear_way fate [] n d = (n, d)
  clear_way fate (name ∷ names) n d =
      clear_way fate names (suc n) (if fate.goes n then remove_live name d else d)

  -- The held entries are back, or not; the directories are synced and the old model is saved. The disk has
  -- the model of servers.json, which a save that fails may leave as it was.
  unfoldable pub settle : Fate → Bool → ℕ → Option Journal → Disk C → Bool × Disk C
  unfolding recovered_meta
  settle fate back n j d =
      if not (back && fate.goes n)
      then (false, d)
      else (fate.goes (suc n), after_write fate (suc n) (set_meta (recovered_meta j d.meta)) d)

  -- One recovery up to the removal of the staging directory, which is `boot` in Removal: whether it is
  -- over, so that the directory is removed. `ready` is whether Docker confirms that the container is
  -- stopped, the server's directory can be read and, without the marker, `old` and the journal can be
  -- read and the journal passes its checks.
  unfoldable pub recover : Bool → Fate → Disk C → Bool × Disk C
  unfolding undo_install clear_way each_name settle
  recover ready fate d =
      let (undone, n, d1) = undo_install fate d.journal d in
      let (m, d2) = clear_way fate (keys d.held) n d1 in
      let (back, k, d3) = each_name fate give_back (keys d.held) m d2 in
      if not ready
      then (false, d)
      else if d.committed
      then (fate.goes 0, d)
      else if not undone
      then (false, d1)
      else if is_none d.journal && length (keys d.held) == 0
      then (true, d)
      else settle fate back k d.journal d3
