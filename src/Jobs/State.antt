-- ===== src/Jobs/State.antt =====
-- A job, what makes its record valid, and what a client sees of it: `ImportJob`, `importJob` and `view` of
-- internal/arcade/import.go, `jobRecordName` and `validateJob` of internal/arcade/job_store.go.
use teploy_arcade.Text.{bytes_key}
use teploy_arcade.Prelude.{
  nat_key, Bytes, ℕ, ◌*◌, ◌/◌, String, Bool, true, false, not, ◌&&◌, ◌||◌, [], ◌∷◌, ltb, leb,
  if◌then◌else◌, ◌==◌, length, all, string_key,
}
use teploy_arcade.Prelude.Int.{int_key, ℤ, pos_part, ltb_ℤ, pos}

pub data Mode : Type 0 where
  copy_mode adopt_mode clone_mode backup_mode plugin_install_mode restore_mode : Mode
  other_mode : String → Mode

pub data Progress : Type 0 where
  in_progress finished broken : Progress
  other_state : String → Progress

pub record ImportJob : Type 0 where
  pub request_hash : Bytes
  pub id : Bytes
  pub path : Bytes
  pub mode : Mode
  pub name : String
  pub state : Progress
  pub total : ℤ
  pub copied : ℤ
  pub percent : ℤ
  pub current : String
  pub skipped : ℤ
  pub server_id : String
  pub error : String
  pub started : ℤ
  pub ended : ℤ

-- A job in memory: `pub`, the bytes copied so far, and whether it has a record.
pub record LiveJob : Type 0 where
  pub job : ImportJob
  pub copied_so_far : ℤ
  pub stored : Bool

abbrev between : ℕ → ℕ → ℕ → Bool
between low c high = leb low c && leb c high

-- Letters, digits, '-' and '_'.
abbrev pub id_byte : ℕ → Bool
id_byte c = between 97 c 122 || between 65 c 90 || between 48 c 57 || c == 45 || c == 95

unfoldable pub valid_job_id : Bytes → Bool
valid_job_id id = not (id == []) && leb (length id) 128 && all id_byte id

abbrev pub is_absolute : Bytes → Bool
is_absolute [] = false
is_absolute (c ∷ cs) = c == 47

-- What hex.DecodeString takes for 32 bytes.
abbrev pub hex_byte : ℕ → Bool
hex_byte c = between 48 c 57 || between 97 c 102 || between 65 c 70

unfoldable pub valid_hash : Bytes → Bool
valid_hash hash = hash == [] || (length hash == 64 && all hex_byte hash)

abbrev known_mode : Mode → Bool
known_mode (other_mode m) = false
known_mode copy_mode = true
known_mode adopt_mode = true
known_mode clone_mode = true
known_mode backup_mode = true
known_mode plugin_install_mode = true
known_mode restore_mode = true

-- The modes that make a server, so that a running job has none.
abbrev makes_server : Mode → Bool
makes_server copy_mode = true
makes_server adopt_mode = true
makes_server clone_mode = true
makes_server backup_mode = false
makes_server plugin_install_mode = false
makes_server restore_mode = false
makes_server (other_mode m) = false

unfoldable pub valid_state : ImportJob → Progress → Bool
valid_state v in_progress =
    v.ended == pos 0 && not (makes_server v.mode && not (v.server_id == "")) && v.error == ""
valid_state v finished = not (ltb_ℤ v.ended v.started) && not (v.server_id == "") && v.error == ""
valid_state v broken = not (ltb_ℤ v.ended v.started) && not (v.error == "")
valid_state v (other_state s) = false

abbrev valid_numbers : ImportJob → Bool
valid_numbers v =
    ltb_ℤ (pos 0) v.started
    && not (ltb_ℤ v.total (pos 0))
    && not (ltb_ℤ v.copied (pos 0))
    && not (ltb_ℤ v.skipped (pos 0))
    && not (ltb_ℤ v.percent (pos 0))
    && not (ltb_ℤ (pos 100) v.percent)

-- `validateJob` of the record `<key>.json`.
unfoldable pub validate_job : ImportJob → Bytes → Bool
unfolding valid_job_id valid_hash valid_state
validate_job v key =
    valid_job_id v.id
    && v.id == key
    && known_mode v.mode
    && not (v.name == "")
    && is_absolute v.path
    && valid_numbers v
    && valid_hash v.request_hash
    && valid_state v v.state

abbrev pub is_in_progress : Progress → Bool
is_in_progress in_progress = true
is_in_progress finished = false
is_in_progress broken = false
is_in_progress (other_state s) = false

abbrev pub is_finished : Progress → Bool
is_finished finished = true
is_finished in_progress = false
is_finished broken = false
is_finished (other_state s) = false

-- `view`: the counter of bytes is not negative, and 100 percent belongs to a job that is done. The
-- product of the bytes and 100 is not bounded by the bits of an int64.
unfoldable pub view : LiveJob → ImportJob
view j =
    let v = record j.job { copied = j.copied_so_far } in
    let share = pos_part j.copied_so_far * 100 / pos_part v.total in
    if is_finished v.state
    then record v { percent = pos 100 }
    else if ltb_ℤ (pos 0) v.total
    then record v { percent = pos (if ltb 99 share then 99 else share) }
    else v
