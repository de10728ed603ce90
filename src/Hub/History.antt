-- ===== src/Hub/History.antt =====
-- Every call keeps a hub valid, and none panics.
use teploy_arcade.Prelude.{
  ℕ, String, false, List, [], ◌∷◌, ◌≡◌, nat_key, string_key, lookup, delete, add-Distinct,
  delete-Distinct, Option-cases, Bool-cases, Returns, Returns-bind, Returns-map, inl, inr,
}
use teploy_arcade.Hub.Conn.{Line, Message, line}
use teploy_arcade.Hub.Rooms.{
  Room, Hub, Heap, new_hub, room, join, leave, store_line, publish, publish_raw, attach, leave_room,
  drop_room, Call, opens, receives, joins, leaves, publishes, publishes_raw, drops, step, run,
}
use teploy_arcade.Hub.Heap.{
  AllSound, close-Total, try_send-Total, receive-IsSound, new_conn-IsSound, update-AllSound,
  on_all-AllSound,
}
use teploy_arcade.Hub.Valid.{
  publish_raw-eq, leave-eq, IsValidRoom, IsValid, set_room-IsValid, room-IsValid,
  store_line-IsValidRoom, tombstone-IsValidRoom, after_publish, publish_live-eq, drop_room-eq,
  join-attach,
}

pub after_publish-IsValid :
    (id : String) (l : Line) (now : String) (r : Room) (h : Hub)
    → r.dead ≡ false
    → IsValidRoom r
    → IsValid h
    → IsValid (after_publish id l now r h).1
after_publish-IsValid id l now r h live w v = record {
  at_room = (set_room-IsValid id _ h v (store_line-IsValidRoom now l r live w)).at_room;
  sound =
      on_all-AllSound _ _ (try_send-Total (line (store_line now l r).0)) r.conns h.conns v.sound;
}

publish-Returns :
    (id : String) (l : Line) (now : String) (h : Hub)
    → IsValid h
    → Returns (λ r. IsValid r.1) (publish id l now h)
unfolding publish
publish-Returns id l now h v = elim (Bool-cases (room id h).0.dead) [
  | inl gone ↦ rw gone (room-IsValid id h v).1
  | inr live ↦
      let (w, v') = room-IsValid id h v in
      rw (live, publish_live-eq id _ now (room id h).0 (room id h).1 w v'.sound)
        (after_publish-IsValid id _ now (room id h).0 (room id h).1 live w v')
]

publish_raw-Returns :
    (id : String) (m : Message) (h : Hub) → IsValid h → Returns IsValid (publish_raw id m h)
publish_raw-Returns id m h v = rw (publish_raw-eq id m h v) (record {
  at_room = v.at_room;
  sound = on_all-AllSound _ _ (try_send-Total m) (room id h).0.conns h.conns v.sound;
})

pub drop_room-Returns : (id : String) (h : Hub) → IsValid h → Returns IsValid (drop_room id h)
drop_room-Returns id h v =
    let (w, v') = room-IsValid id h v in
    rw (drop_room-eq id h v) (record {
      at_room =
          (set_room-IsValid id _ (room id h).1 v' (tombstone-IsValidRoom (room id h).0 w)).at_room;
      sound = on_all-AllSound _ _ close-Total (room id h).0.conns (room id h).1.conns v'.sound;
    })

join-IsValid : (id : String) (c : ℕ) (h : Hub) → IsValid h → IsValid (join id c h).1
unfolding attach
join-IsValid id c h v = rw join-attach (let (w, v') = room-IsValid id h v in attached _ w _ v')
  where
    attached : (r : Room) → IsValidRoom r → (g : Hub) → IsValid g → IsValid (attach id c r g).1
    attached r w g v' = elim (Bool-cases r.dead) [
      | inl gone ↦ rw (gone, attach) v'
      | inr live ↦
          rw (live, attach)
            (set_room-IsValid id _ g v' (record {
              bounded = w.bounded;
              numbered = w.numbered;
              counted = w.counted;
              distinct = add-Distinct c r.conns w.distinct;
              buried = λ p. cc;
            }))
    ]

pub delete-IsValidRoom :
    (c : ℕ) (r : Room) → IsValidRoom r → IsValidRoom (record r { conns = delete c r.conns })
unfolding delete
delete-IsValidRoom c r w = record {
  bounded = w.bounded;
  numbered = w.numbered;
  counted = w.counted;
  distinct = delete-Distinct c r.conns w.distinct;
  buried = λ p. ((w.buried p).0, rw ((w.buried p).1));
}

pub leave_room-IsValid : (id : String) (c : ℕ) (h : Hub) → IsValid h → IsValid (leave_room id c h)
leave_room-IsValid id c h v = elim (Option-cases (lookup id h.rooms)) [
  | inl e ↦ rw (e, leave_room) v
  | inr (r, e) ↦
      rw (e, leave_room) (set_room-IsValid id _ h v (delete-IsValidRoom c r (v.at_room id r e)))
]

leave-Returns : (id : String) (c : ℕ) (h : Hub) → IsValid h → Returns IsValid (leave id c h)
leave-Returns id c h v =
    let w = leave_room-IsValid id c h v in
    rw (leave-eq id c h v) (record {
      at_room = w.at_room;
      sound = update-AllSound _ c _ w.sound (close-Total.keeps (h.conns c) (v.sound c));
    })

-- No call panics in a valid hub, and the hub stays valid.
pub step-Returns : (c : Call) (h : Hub) → IsValid h → Returns IsValid (step c h)
unfolding step
step-Returns (opens c buf) h v = record {
  at_room = v.at_room;
  sound = update-AllSound h.conns c _ v.sound (new_conn-IsSound buf);
}
step-Returns (receives c) h v = record {
  at_room = v.at_room;
  sound = update-AllSound h.conns c _ v.sound (receive-IsSound (h.conns c) (v.sound c));
}
step-Returns (joins id c) h v = join-IsValid id c h v
step-Returns (leaves id c) h v = leave-Returns id c h v
step-Returns (publishes id l now) h v =
    Returns-map IsValid (λ r. r.1) (publish id l now h) (publish-Returns id l now h v)
step-Returns (publishes_raw id m) h v = publish_raw-Returns id m h v
step-Returns (drops id) h v = drop_room-Returns id h v

run-Returns : (cs : List Call) (h : Hub) → IsValid h → Returns IsValid (run cs h)
unfolding run
run-Returns [] h v = v
run-Returns (c ∷ cs) h v =
    Returns-bind IsValid (step c h) (run cs) (step-Returns c h v) (λ g w. run-Returns cs g w)

pub new_hub-IsValid : (h : Heap) → AllSound h → IsValid (new_hub h)
unfolding new_hub lookup
new_hub-IsValid h a = record { at_room = λ id r e. cc; sound = a }

-- From an empty hub whose connections are sound, every history of calls runs without a panic (a send
-- on a closed channel or a second close), and ends in a hub where the rings hold at most 500 lines
-- numbered one after another up to the room's counter, no viewer is listed twice in a room, and a
-- deleted room has neither lines nor viewers.
pub run-IsValid : (cs : List Call) (h : Heap) → AllSound h → Returns IsValid (run cs (new_hub h))
run-IsValid cs h a = run-Returns cs (new_hub h) (new_hub-IsValid h a)
