-- ===== src/Hub/Rooms.antt =====
-- The hub's operations on its rooms. A `*Conn` is an address in the heap of connections, so that one
-- connection is the same object for its room, its reader and `DropRoom`.
use teploy_arcade.Prelude.{
  Bytes, ℕ, zero, suc, ◌+◌, ◌/◌, ◌%◌, String, Bool, true, false, ◌||◌, Option, none, some, List, [],
  ◌∷◌, ◌++◌, length, leb, ltb, if◌then◌else◌, ◌==◌, ◌>>=◌, Assoc, lookup, insert, take, take_last,
  add, delete, nat_key, string_key,
}
use teploy_arcade.Prelude.Int.{ℤ, pos, negsuc}
use teploy_arcade.Hub.Conn.{Line, Message, line, Conn, new_conn, close, try_send, receive, next_i64}

pub record Room : Type 0 where
  pub dead : Bool
  pub seq : ℕ
  pub ring : List Line
  pub conns : List ℕ

abbrev pub Heap : Type 0
Heap = ℕ → Conn

pub record Hub : Type 0 where
  pub rooms : Assoc String Room
  pub conns : Heap

abbrev pub ring_size : ℕ
ring_size = 500

unfoldable pub update : Heap → ℕ → Conn → Heap
update h c x d = if c == d then x else h d

abbrev pub fresh_room : Room
fresh_room = record { dead = false; seq = 0; ring = []; conns = [] }

unfoldable pub new_hub : Heap → Hub
new_hub h = record { rooms = []; conns = h }

abbrev pub set_room : String → Room → Hub → Hub
set_room id r h = record h { rooms = insert id r h.rooms }

-- `room`: get or create.
unfoldable pub room : String → Hub → Room × Hub
room id h = elim (lookup id h.rooms) [
  | some r ↦ (r, h)
  | none ↦ (fresh_room, set_room id fresh_room h)
]

unfoldable pub attach : String → ℕ → Room → Hub → (List Line × ℕ × ℕ) × Hub
attach id c r h =
    if r.dead
    then (([], r.seq, ring_size), h)
    else ((r.ring, r.seq, ring_size), set_room id (record r { conns = add c r.conns }) h)

unfoldable pub join : String → ℕ → Hub → (List Line × ℕ × ℕ) × Hub
join id c h = elim (lookup id h.rooms) [
  | some r ↦ attach id c r h
  | none ↦ let (r, h') = room id h in attach id c r h'
]

abbrev pub dead_of : Option Room → Bool
dead_of none = false
dead_of (some r) = r.dead

unfoldable pub dead : String → Hub → Bool
dead id h = dead_of (lookup id h.rooms)

abbrev pub leave_room : String → ℕ → Hub → Hub
leave_room id c h = elim (lookup id h.rooms) [
  | none ↦ h
  | some r ↦ set_room id (record r { conns = delete c r.conns }) h
]

-- The source closes the connection when the lock of the room is free again; here it is one step.
unfoldable pub leave : String → ℕ → Hub → Option Hub
leave id c h = do
  let h' = leave_room id c h
  x ← close (h'.conns c)
  some (record h' { conns = update h'.conns c x })

-- One operation on each connection of a room in turn.
unfoldable pub for_conns : (Conn → Option Conn) → List ℕ → Heap → Option Heap
for_conns f [] h = some h
for_conns f (c ∷ cs) h = f (h c) >>= λ x. for_conns f cs (update h c x)

abbrev pub max_line_bytes : ℕ
max_line_bytes = 8192

digits : ℕ → ℕ → Bytes
digits zero n = []
digits (suc fuel) n =
    let more = digits fuel (n / 10) in
    let d = 48 + n % 10 in if ltb n 10 then d ∷ [] else more ++ d ∷ []

-- `%d` of a length, which is below 2^64.
unfoldable pub decimal : ℕ → Bytes
unfolding digits
decimal n = digits 20 n

-- " … [truncated, %d bytes total]", in UTF-8.
abbrev truncation_note : ℕ → Bytes
truncation_note n =
    (32 ∷ 226 ∷ 128 ∷ 166 ∷ 32 ∷ 91 ∷ 116 ∷ 114 ∷ 117 ∷ 110 ∷ 99 ∷ 97 ∷ 116 ∷ 101 ∷ 100 ∷ 44 ∷ 32
      ∷ [])
    ++ (decimal n ++ (32 ∷ 98 ∷ 121 ∷ 116 ∷ 101 ∷ 115 ∷ 32 ∷ 116 ∷ 111 ∷ 116 ∷ 97 ∷ 108 ∷ 93 ∷ []))

unfoldable pub truncate_line : Bytes → Bytes
truncate_line s =
    if leb (length s) max_line_bytes then s else take max_line_bytes s ++ truncation_note (length s)

abbrev pub or_default : String → String → String
or_default s d = if s == "" then d else s

-- The line as it is stored: its number, and defaults for what the caller left empty.
unfoldable pub stamp : ℕ → String → Line → Line
stamp seq now l = record l {
  seq = seq;
  ts = or_default l.ts now;
  level = or_default l.level "info";
  source = or_default l.source "server";
}

abbrev pub cut : List Line → List Line
cut ring = if ltb ring_size (length ring) then take_last ring_size ring else ring

-- The room after a line is stored, before the fanout.
unfoldable pub store_line : String → Line → Room → Line × Room
unfolding stamp
store_line now l r =
    let l' = stamp (next_i64 r.seq) now l in
    (l', record r { seq = next_i64 r.seq; ring = cut (r.ring ++ l' ∷ []) })

-- What `Publish` does under the lock of a live room: store the line, then fan it out.
unfoldable pub publish_live : String → Line → String → Room → Hub → Option (Line × Hub)
publish_live id l now r h =
    let (l', r') = store_line now l r in
    for_conns (try_send (line l')) r.conns h.conns >>= λ conns.
    some (l', record (set_room id r' h) { conns = conns })

-- `now` is the reading of the clock.
unfoldable pub publish : String → Line → String → Hub → Option (Line × Hub)
publish id l now h =
    let (r, h') = room id h in
    let l' = record l { text = truncate_line l.text } in
    if r.dead then some (l', h') else publish_live id l' now r h'

-- The source sends to the sockets when the lock of the room is free again; here it is one step.
unfoldable pub publish_raw : String → Message → Hub → Option Hub
publish_raw id m h = elim (lookup id h.rooms) [
  | none ↦ some h
  | some r ↦ for_conns (try_send m) r.conns h.conns >>= λ conns. some (record h { conns = conns })
]

tail_count : ℤ → ℕ → ℕ
tail_count (pos n) len = if n == 0 || ltb len n then len else n
tail_count (negsuc n) len = len

unfoldable pub tail : String → ℤ → Hub → List Line
unfolding tail_count
tail id n h = elim (lookup id h.rooms) [
  | none ↦ []
  | some r ↦ take_last (tail_count n (length r.ring)) r.ring
]

abbrev pub tombstone : Room → Room
tombstone r = record r { conns = []; ring = []; dead = true }

unfoldable pub drop_room : String → Hub → Option Hub
drop_room id h = do
  let (r, h') = room id h
  conns ← for_conns close r.conns h'.conns
  some (record (set_room id (tombstone r) h') { conns = conns })

unfoldable pub viewers : String → Hub → ℕ
viewers id h = elim (lookup id h.rooms) [ none ↦ 0 | some r ↦ length r.conns ]

-- What may happen to a hub: a call, a new socket, or a socket that takes a message.
pub data Call : Type 0 where
  opens : ℕ → ℕ → Call
  receives : ℕ → Call
  joins : String → ℕ → Call
  leaves : String → ℕ → Call
  publishes : String → Line → String → Call
  publishes_raw : String → Message → Call
  drops : String → Call

-- Each call runs under the locks of its room, so that a history is a sequence of calls.
unfoldable pub step : Call → Hub → Option Hub
step (opens c buf) h = some (record h { conns = update h.conns c (new_conn buf) })
step (receives c) h = some (record h { conns = update h.conns c (receive (h.conns c)).1 })
step (joins id c) h = some (join id c h).1
step (leaves id c) h = leave id c h
step (publishes id l now) h = publish id l now h >>= λ r. some r.1
step (publishes_raw id m) h = publish_raw id m h
step (drops id) h = drop_room id h

unfoldable pub run : List Call → Hub → Option Hub
run [] h = some h
run (c ∷ cs) h = step c h >>= run cs
