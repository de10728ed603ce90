-- ===== src/Restore/Disk.antt =====
-- A server's directory during a restore, and the durable changes that a restore makes to it.
use teploy_arcade.Prelude.{
  Bytes, ℕ, suc, String, Bool, true, false, ◌||◌, Option, none, some, List, [], ◌∷◌, if◌then◌else◌,
  Assoc, lookup, remove, insert, string_key,
}
use teploy_arcade.Prelude.Int.{ℤ}
use teploy_arcade.Text.{bytes_key}

-- What the journal keeps of the panel's model of the server.
pub record Meta : Type 0 where
  pub port : ℤ
  pub max_players : ℤ
  pub props : Assoc Bytes Bytes

pub data Phase : Type 0 where
  evacuating installing rolling_back : Phase

pub record Journal : Type 0 where
  pub phase : Phase
  pub original : List String
  pub new : List String
  pub old : Meta

-- The entries of the server's directory, those of `old` and `new` in the staging directory, the
-- journal and the marker there, and the server's model as servers.json has it. An entry is a file or a whole directory, of
-- content `C`; a directory lists its entries by name, each name once.
pub record Disk (C : Type 0) : Type 0 where
  pub live : Assoc String C
  pub held : Assoc String C
  pub extracted : Assoc String C
  pub journal : Option Journal
  pub committed : Bool
  pub meta : Meta

-- How the attempts of a run to change the disk turn out, by number: whether one succeeds, and whether a
-- write that fails takes place nevertheless. A crash is a failure of all that follows.
pub record Fate : Type 0 where
  pub goes : ℕ → Bool
  pub lands : ℕ → Bool

module _ {C : Type 0} where
  -- os.Rename of an entry from the directory to `old`, from `new` to the directory, and from `old`
  -- back.
  unfoldable pub evacuate : String → Disk C → Disk C
  evacuate name d = elim (lookup name d.live) [
    | none ↦ d
    | some c ↦ record d { live = remove name d.live; held = insert name c d.held }
  ]

  unfoldable pub install : String → Disk C → Disk C
  install name d = elim (lookup name d.extracted) [
    | none ↦ d
    | some c ↦ record d { extracted = remove name d.extracted; live = insert name c d.live }
  ]

  unfoldable pub give_back : String → Disk C → Disk C
  give_back name d = elim (lookup name d.held) [
    | none ↦ d
    | some c ↦ record d { held = remove name d.held; live = insert name c d.live }
  ]

  -- os.RemoveAll of an entry of the directory.
  abbrev pub remove_live : String → Disk C → Disk C
  remove_live name d = record d { live = remove name d.live }

  -- `writeRestoreJournal`.
  abbrev pub write_journal : Journal → Disk C → Disk C
  write_journal j d = record d { journal = some j }

  abbrev pub set_meta : Meta → Disk C → Disk C
  set_meta m d = record d { meta = m }

  abbrev pub commit : Disk C → Disk C
  commit d = record d { committed = true }

  -- `writeDurable`: a write that failed may have landed all the same.
  abbrev pub after_write : Fate → ℕ → (Disk C → Disk C) → Disk C → Disk C
  after_write fate n write d = if fate.goes n || fate.lands n then write d else d

  -- One change for each name in turn, until one fails. The result says whether all went through, and
  -- how many attempts there were so far.
  unfoldable pub each_name :
      Fate → (String → Disk C → Disk C) → List String → ℕ → Disk C → Bool × ℕ × Disk C
  each_name fate change [] n d = (true, n, d)
  each_name fate change (name ∷ names) n d =
      let rest = each_name fate change names (suc n) (change name d) in
      if fate.goes n then rest else (false, suc n, d)
