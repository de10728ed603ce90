-- ===== src/Hub/Valid.antt =====
-- What holds of a hub after any history of calls.
use teploy_arcade.Prelude.{
  contains, ℕ, zero, suc, ◌-◌, ◌^◌, ◌≤◌, ◌<◌, String, true, false, some, List, [], ◌∷◌, ◌++◌, ◌≡◌,
  refl, arith, length, drop, nat_key, string_key, lookup, lookup-insert, Distinct,
  length-take_last-le, Option-cases, inl, inr,
}
use teploy_arcade.Hub.Conn.{Message, Line, line, next_i64}
use teploy_arcade.Hub.Rooms.{
  leave, leave_room, update, publish_raw, Room, Hub, ring_size, fresh_room, set_room, room, join,
  cut, store_line, publish_live, attach, drop_room, tombstone,
}
use teploy_arcade.Hub.Heap.{
  AllSound, after_close, after_offer, close-Total, try_send-Total, on_all, for_conns-on_all,
}

-- The lines are numbered one after another, and the last has the number `n`.
abbrev pub EndsAt : List Line → ℕ → Type 0
EndsAt [] n = Unit
EndsAt (x ∷ []) n = x.seq ≡ n
EndsAt (x ∷ y ∷ rest) n = (y.seq ≡ next_i64 x.seq) × EndsAt (y ∷ rest) n

EndsAt-append :
    (xs : List Line) (n : ℕ) (l : Line)
    → l.seq ≡ next_i64 n
    → EndsAt xs n
    → EndsAt (xs ++ l ∷ []) (next_i64 n)
EndsAt-append [] n l e h = e
EndsAt-append (x ∷ []) n l e h = ground arith
EndsAt-append (x ∷ y ∷ rest) n l e h = (h.0, EndsAt-append (y ∷ rest) n l e h.1)

EndsAt-drop : (k : ℕ) (xs : List Line) (n : ℕ) → EndsAt xs n → EndsAt (drop k xs) n
EndsAt-drop zero xs n h = h
EndsAt-drop (suc k) [] n h = tt
EndsAt-drop (suc zero) (x ∷ []) n h = tt
EndsAt-drop (suc (suc k)) (x ∷ []) n h = tt
EndsAt-drop (suc k) (x ∷ y ∷ rest) n h = EndsAt-drop k (y ∷ rest) n h.1

pub record IsValidRoom (r : Room) : Type 0 where
  pub bounded : length r.ring ≤ ring_size
  pub numbered : EndsAt r.ring r.seq
  pub counted : r.seq < 2 ^ 64
  pub distinct : Distinct r.conns
  pub buried : r.dead ≡ true → (r.ring ≡ []) × (r.conns ≡ [])

pub record IsValid (h : Hub) : Type 0 where
  pub at_room : (id : String) (r : Room) → lookup id h.rooms ≡ some r → IsValidRoom r
  pub sound : AllSound h.conns

pub fresh_room-IsValidRoom : IsValidRoom fresh_room
fresh_room-IsValidRoom = record {
  bounded = omega arith;
  numbered = tt;
  counted = omega arith;
  distinct = tt;
  buried = λ p. cc;
}

pub set_room-IsValid :
    (id : String) (r : Room) (h : Hub) → IsValid h → IsValidRoom r → IsValid (set_room id r h)
set_room-IsValid id r h v w = record {
  at_room = λ j s e. let law = lookup-insert id j r h.rooms in ground (arith, law, v.at_room j s);
  sound = v.sound;
}

pub room-IsValid :
    (id : String) (h : Hub) → IsValid h → IsValidRoom (room id h).0 × IsValid (room id h).1
unfolding room
room-IsValid id h v = elim (Option-cases (lookup id h.rooms)) [
  | inl e ↦
      rw (e, room)
        (fresh_room-IsValidRoom, set_room-IsValid id fresh_room h v fresh_room-IsValidRoom)
  | inr (r, e) ↦ rw (e, room) (v.at_room id r e, v)
]

pub store_line-IsValidRoom :
    (now : String) (l : Line) (r : Room)
    → r.dead ≡ false
    → IsValidRoom r
    → IsValidRoom (store_line now l r).1
unfolding store_line
store_line-IsValidRoom now l r live v = record {
  bounded = cut-bounded (r.ring ++ _ ∷ []);
  numbered = cut-EndsAt (r.ring ++ _ ∷ []) _ (EndsAt-append r.ring r.seq _ refl v.numbered);
  counted = omega arith;
  distinct = v.distinct;
  buried = λ p. cc;
}
  where
    cut-bounded : (xs : List Line) → length (cut xs) ≤ ring_size
    cut-bounded xs = ground (arith, length-take_last-le ring_size xs)

    cut-EndsAt : (xs : List Line) (n : ℕ) → EndsAt xs n → EndsAt (cut xs) n
    cut-EndsAt xs n h = ground (arith, EndsAt-drop (length xs - ring_size) xs n h)

pub tombstone-IsValidRoom : (r : Room) → IsValidRoom r → IsValidRoom (tombstone r)
tombstone-IsValidRoom r v = record {
  bounded = omega arith;
  numbered = tt;
  counted = v.counted;
  distinct = tt;
  buried = λ p. (refl, refl);
}

-- The hub after a line has been stored and fanned out.
abbrev pub after_publish : String → Line → String → Room → Hub → Line × Hub
after_publish id l now r h =
    let (l', r') = store_line now l r in
    (l', record (set_room id r' h) { conns = on_all (after_offer (line l')) r.conns h.conns })

pub publish_live-eq :
    (id : String) (l : Line) (now : String) (r : Room) (h : Hub)
    → IsValidRoom r
    → AllSound h.conns
    → publish_live id l now r h ≡ some (after_publish id l now r h)
unfolding publish_live
publish_live-eq id l now r h w a = rw (
    for_conns-on_all _ _ (try_send-Total (line (store_line now l r).0)) r.conns h.conns w.distinct
      a)

-- The hub after a room was dropped.
abbrev pub after_drop : String → Room → Hub → Hub
after_drop id r h = record (set_room id (tombstone r) h) {
  conns = on_all after_close r.conns h.conns;
}

pub drop_room-eq :
    (id : String) (h : Hub)
    → IsValid h
    → drop_room id h ≡ some (after_drop id (room id h).0 (room id h).1)
unfolding drop_room
drop_room-eq id h v =
    let (w, v') = room-IsValid id h v in
    rw
      (for_conns-on_all _ _ close-Total (room id h).0.conns (room id h).1.conns w.distinct v'.sound)

-- `Join` is the same in both branches: get or create the room, and attach.
pub join-attach :
    (id : String) (c : ℕ) (h : Hub) → join id c h ≡ attach id c (room id h).0 (room id h).1
unfolding join room
join-attach id c h = ground arith

-- The hub after a control message.
pub publish_raw-eq :
    (id : String) (m : Message) (h : Hub)
    → IsValid h
    → publish_raw id m h
      ≡ some (record h { conns = on_all (after_offer m) (room id h).0.conns h.conns })
unfolding publish_raw room
publish_raw-eq id m h v = elim (Option-cases (lookup id h.rooms)) [
  | inl e ↦ rw (e, publish_raw, room) (unfold contains in refl)
  | inr (r, e) ↦
      rw (e, publish_raw, room)
        (rw (
          for_conns-on_all _ _ (try_send-Total m) r.conns h.conns (v.at_room id r e).distinct
            v.sound))
]

-- The hub after a viewer left.
abbrev pub after_leave : String → ℕ → Hub → Hub
after_leave id c h =
    let g = leave_room id c h in record g { conns = update g.conns c (after_close (h.conns c)) }

pub conns-leave_room : (id : String) (c : ℕ) (h : Hub) → (leave_room id c h).conns ≡ h.conns
conns-leave_room id c h = ground arith

pub leave-eq :
    (id : String) (c : ℕ) (h : Hub) → IsValid h → leave id c h ≡ some (after_leave id c h)
unfolding leave
leave-eq id c h v = rw (conns-leave_room id c h, close-Total.runs (h.conns c) (v.sound c))
