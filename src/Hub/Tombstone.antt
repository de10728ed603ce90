-- ===== src/Hub/Tombstone.antt =====
-- A deleted room stays deleted: what `DropRoom` leaves behind.
use teploy_arcade.Prelude.{
  ℕ, String, true, false, none, some, List, [], ◌∷◌, ◌≡◌, refl, sym, ap, ◌∙◌, arith, nat_key,
  string_key, same_refl, drop-nil, lookup, lookup-insert, Returns, Returns-bind, Returns-map,
  Returns-both, inl, inr, Bool-cases, same_cases, insert, Option-cases, if◌then◌else◌, ◌==◌, delete,
}
use teploy_arcade.Prelude.Int.{ℤ}
use teploy_arcade.Hub.Conn.{Line}
use teploy_arcade.Hub.Rooms.{
  Room, Hub, Heap, room, set_room, fresh_room, join, attach, leave_room, dead, dead_of, tail,
  viewers, publish, drop_room, tombstone, Call, opens, receives, joins, leaves, publishes,
  publishes_raw, drops, step, run,
}
use teploy_arcade.Hub.Valid.{publish_raw-eq, leave-eq, IsValid, drop_room-eq, join-attach}
use teploy_arcade.Hub.History.{step-Returns, drop_room-Returns}
use teploy_arcade.Hub.Replay.{publish-eq, room-set_room}

dead-room : (id : String) (h : Hub) → dead id h ≡ (room id h).0.dead
unfolding dead room
dead-room id h = ground arith

lookup-set_room :
    (id j : String) (r : Room) (h : Hub)
    → lookup id (set_room j r (room j h).1).rooms ≡ (if j == id then some r else lookup id h.rooms)
unfolding room
lookup-set_room id j r h = elim (Option-cases (lookup j h.rooms)) [
  | inl e ↦
      rw
        (
          e,
          room,
          lookup-insert j id r (insert j fresh_room h.rooms),
          lookup-insert j id fresh_room h.rooms,
        )
        (ground arith)
  | inr (s, e) ↦ rw (e, room) (lookup-insert j id r h.rooms)
]

dead-lookup :
    (id : String) (g h : Hub) → lookup id g.rooms ≡ lookup id h.rooms → dead id g ≡ dead id h
unfolding dead
dead-lookup id g h e = ap dead_of e

-- Replacing a room by one that is deleted if the old one was keeps all deleted rooms.
dead-set_room :
    (id j : String) (r : Room) (h : Hub) (conns : Heap)
    → ((room j h).0.dead ≡ true → r.dead ≡ true)
    → dead id h ≡ true
    → dead id (record (set_room j r (room j h).1) { conns = conns }) ≡ true
dead-set_room id j r h conns keep d = elim (same_cases j id) [
  | inl same ↦
      rw (dead-room id, ← same, room-set_room j r (room j h).1 conns)
        (keep (rw (← dead-room j h, same) d))
  | inr other ↦ dead-lookup id _ h (rw (lookup-set_room id j r h, other)) ∙ d
]

dead-insert :
    (id j : String) (r : Room) (h : Hub)
    → dead id (set_room j r h) ≡ (if j == id then r.dead else dead id h)
unfolding dead
dead-insert id j r h = rw (lookup-insert j id r h.rooms) (ground arith)

-- A room that is not there is not deleted.
dead_absent :
    (id j : String) (h : Hub) → lookup j h.rooms ≡ none → dead id h ≡ true → (j == id) ≡ false
unfolding dead
dead_absent id j h e d = elim (same_cases j id) [
  | inl same ↦ cc (ap (λ k. lookup k h.rooms) same)
  | inr other ↦ other
]

-- Creating a room where there is none changes no deleted room.
dead-room_rooms : (id j : String) (h : Hub) → dead id h ≡ true → dead id (room j h).1 ≡ true
unfolding room
dead-room_rooms id j h d = elim (Option-cases (lookup j h.rooms)) [
  | inl e ↦ rw (e, room) (rw (dead-insert id j fresh_room h, dead_absent id j h e d) d)
  | inr (s, e) ↦ rw (e, room) d
]

dead-attach :
    (id j : String) (c : ℕ) (h : Hub)
    → dead id h ≡ true
    → dead id (attach j c (room j h).0 (room j h).1).1 ≡ true
unfolding attach
dead-attach id j c h d = elim (Bool-cases (room j h).0.dead) [
  | inl gone ↦ rw (gone, attach) (dead-room_rooms id j h d)
  | inr live ↦ rw (live, attach) (dead-set_room id j _ h (room j h).1.conns (λ p. cc) d)
]

dead-leave_room :
    (id j : String) (c : ℕ) (h : Hub) → dead id h ≡ true → dead id (leave_room j c h) ≡ true
unfolding dead
dead-leave_room id j c h d = elim (Option-cases (lookup j h.rooms)) [
  | inl e ↦ rw (e, leave_room) d
  | inr (r, e) ↦
      rw (e, leave_room)
        (rw (dead-insert id j (record r { conns = delete c r.conns }) h) (same_dead r e))
]
  where
    same_dead :
        (r : Room) → lookup j h.rooms ≡ some r → (if j == id then r.dead else dead id h) ≡ true
    same_dead r e = elim (same_cases j id) [
      | inl same ↦ rw (same, same_refl id) (ap dead_of (sym e) ∙ ap (λ k. dead k h) same ∙ d)
      | inr other ↦ rw other d
    ]

dead-publish :
    (id j : String) (l : Line) (now : String) (h : Hub)
    → IsValid h
    → dead id h ≡ true
    → Returns (λ r. dead id r.1 ≡ true) (publish j l now h)
dead-publish id j l now h v d = elim (Bool-cases (room j h).0.dead) [
  | inl gone ↦ unfold publish in rw (gone, publish) (dead-room_rooms id j h d)
  | inr live ↦ rw (publish-eq j l now h v live) (dead-set_room id j _ h _ (λ p. cc) d)
]

dead-step :
    (id : String) (c : Call) (h : Hub)
    → IsValid h
    → dead id h ≡ true
    → Returns (λ g. dead id g ≡ true) (step c h)
unfolding step
dead-step id (opens c buf) h v d = dead-lookup id _ h refl ∙ d
dead-step id (receives c) h v d = dead-lookup id _ h refl ∙ d
dead-step id (joins j c) h v d = rw join-attach (dead-attach id j c h d)
dead-step id (leaves j c) h v d =
    rw (leave-eq j c h v) (dead-lookup id _ (leave_room j c h) refl ∙ dead-leave_room id j c h d)
dead-step id (publishes j l now) h v d =
    Returns-map (λ g. dead id g ≡ true) (λ r. r.1) (publish j l now h)
      (dead-publish id j l now h v d)
dead-step id (publishes_raw j m) h v d = rw (publish_raw-eq j m h v) (dead-lookup id _ h refl ∙ d)
dead-step id (drops j) h v d = rw (drop_room-eq j h v) (dead-set_room id j _ h _ (λ p. refl) d)

-- What is seen of a deleted room: no line, no viewer, and a new viewer is neither registered nor
-- replayed anything.
pub record IsGone (id : String) (g : Hub) : Type 0 where
  pub dead_still : dead id g ≡ true
  pub no_lines : (n : ℤ) → tail id n g ≡ []
  pub no_viewers : viewers id g ≡ 0
  pub no_replay : (c : ℕ) → (join id c g).0.0 ≡ []
  pub no_joins : (c : ℕ) → (join id c g).1 ≡ g

dead_room-IsGone :
    (id : String) (g : Hub) (r : Room)
    → lookup id g.rooms ≡ some r
    → r.dead ≡ true
    → (r.ring ≡ []) × (r.conns ≡ [])
    → IsGone id g
unfolding dead tail viewers join attach
dead_room-IsGone id g r e d b = record {
  dead_still = rw e d;
  no_lines = λ n. rw (e, tail, b.0) (drop-nil _);
  no_viewers = rw (e, viewers, b.1);
  no_replay = λ c. rw (e, join) (ground arith);
  no_joins = λ c. rw (e, join) (ground arith);
}

dead-IsGone : (id : String) (g : Hub) → IsValid g → dead id g ≡ true → IsGone id g
unfolding dead
dead-IsGone id g v d = elim (Option-cases (lookup id g.rooms)) [
  | inl e ↦ cc (ap dead_of e)
  | inr (r, e) ↦
      let gone : r.dead ≡ true = sym (ap dead_of e) ∙ d in
      dead_room-IsGone id g r e gone ((v.at_room id r e).buried gone)
]

run-dead :
    (id : String) (cs : List Call) (h : Hub)
    → IsValid h
    → dead id h ≡ true
    → Returns (IsGone id) (run cs h)
unfolding run
run-dead id [] h v d = dead-IsGone id h v d
run-dead id (c ∷ cs) h v d =
    Returns-bind (IsGone id) (step c h) (run cs)
      (Returns-both IsValid (λ g. dead id g ≡ true) (step c h) (step-Returns c h v)
        (dead-step id c h v d))
      (λ g w. run-dead id cs g w.0 w.1)

-- Once `DropRoom` ran for a server in a valid hub, whatever calls follow (late lines, joins, leaves,
-- another deletion) end without a panic, and the room is still deleted: it has no line and no viewer,
-- and a viewer who joins is neither replayed anything nor registered.
pub drop_final :
    (id : String) (cs : List Call) (h : Hub)
    → IsValid h
    → Returns (IsGone id) (run (drops id ∷ cs) h)
unfolding run step
drop_final id cs h v =
    Returns-bind (IsGone id) (drop_room id h) (run cs)
      (Returns-both IsValid (λ g. dead id g ≡ true) (drop_room id h) (drop_room-Returns id h v)
        dropped)
      (λ g w. run-dead id cs g w.0 w.1)
  where
    dropped : Returns (λ g. dead id g ≡ true) (drop_room id h)
    dropped = rw (
      drop_room-eq id h v,
      dead-room id,
      room-set_room id (tombstone (room id h).0) (room id h).1,
    )
