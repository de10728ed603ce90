-- ===== src/Hub/Replay.antt =====
-- What a viewer who joins is replayed, against the list of all lines that were published.
use teploy_arcade.Prelude.{
  ℕ, ◌+◌, ◌-◌, ◌%◌, ◌^◌, ◌<◌, String, true, false, some, List, [], ◌∷◌, ◌++◌, ◌≡◌, refl, sym, ap,
  ◌∙◌, map, arith, length, drop, take_last, drop-append, drop-drop, length-append, length-drop,
  nat_key, string_key, same_refl, lookup-insert, Returns, Returns-mono, contains, contains-add, inl,
  inr, Bool-cases, ltb,
}
use mathlib.Core.List.{append_assoc, append-nil}
use teploy_arcade.Hub.Conn.{Line, next_i64}
use teploy_arcade.Hub.Rooms.{
  Room, Hub, Heap, ring_size, room, join, attach, cut, stamp, store_line, truncate_line, publish,
  Call, publishes, step, run, set_room,
}
use teploy_arcade.Hub.Valid.{
  IsValid, IsValidRoom, room-IsValid, after_publish, publish_live-eq, join-attach,
}
use teploy_arcade.Hub.History.{after_publish-IsValid}

-- Lines to publish, each with the reading of the clock.
abbrev pub Feed : Type 0
Feed = List (Line × String)

abbrev pub feed_calls : String → Feed → List Call
feed_calls id feed = map (λ p. publishes id p.0 p.1) feed

abbrev pub prepared : ℕ → Line × String → Line
prepared n (l, now) = stamp (next_i64 n) now (record l { text = truncate_line l.text })

-- The lines as they are numbered from the counter `n` on.
abbrev pub stamp_all : ℕ → Feed → List Line
stamp_all n [] = []
stamp_all n (p ∷ feed) = prepared n p ∷ stamp_all (next_i64 n) feed

module _ {ℓ} {A : Type ℓ} where
  -- To keep the last `n` entries now and again later is to keep them later.
  pub take_last-append :
      (n : ℕ) (xs ys : List A) → take_last n (take_last n xs ++ ys) ≡ take_last n (xs ++ ys)
  take_last-append n xs ys =
      let k : ℕ = length xs - n in
      let front : drop k xs ++ ys ≡ drop k (xs ++ ys) = sym (drop-append k xs ys (omega arith)) in
      let sizes : length (drop k xs ++ ys) ≡ length xs - k + length ys =
        length-append (drop k xs) ys ∙ ap (λ m. m + length ys) (length-drop k xs) in
      rw sizes (
        rw front (
          drop-drop _ k (xs ++ ys)
          ∙ ap (λ m. drop m (xs ++ ys)) (omega (arith, length-append xs ys))))

pub cut-take_last : (xs : List Line) → cut xs ≡ take_last ring_size xs
cut-take_last xs = elim (Bool-cases (ltb ring_size (length xs))) [
  | inl long ↦ rw (long, cut)
  | inr short ↦
      rw (short, cut) (ap (λ m. drop m xs) (let z : 0 ≡ length xs - ring_size = ground arith in z))
]

-- The room that a hub shows for an id after a line was stored there.
pub room-set_room :
    (id : String) (r : Room) (h : Hub) (conns : Heap)
    → (room id (record (set_room id r h) { conns = conns })).0 ≡ r
unfolding room
room-set_room id r h conns = rw (lookup-insert id id r h.rooms, same_refl id, room)

pub publish-eq :
    (id : String) (l : Line) (now : String) (h : Hub)
    → IsValid h
    → (room id h).0.dead ≡ false
    → publish id l now h
      ≡ some (
          after_publish id
            (record l { text = truncate_line l.text })
            now
            (room id h).0
            (room id h).1)
unfolding publish
publish-eq id l now h v live =
    let (w, v') = room-IsValid id h v in
    rw live (publish_live-eq id _ now (room id h).0 (room id h).1 w v'.sound)

-- The room `id` of `g` is the room `r` after the feed was published there.
pub record Published (id : String) (r : Room) (feed : Feed) (g : Hub) : Type 0 where
  pub live : (room id g).0.dead ≡ false
  pub viewers : (room id g).0.conns ≡ r.conns
  pub counter : (room id g).0.seq ≡ (r.seq + length feed) % 2 ^ 64
  pub lines : (room id g).0.ring ≡ take_last ring_size (r.ring ++ stamp_all r.seq feed)

Published-nil :
    (id : String) (h : Hub)
    → IsValidRoom (room id h).0
    → (room id h).0.dead ≡ false
    → Published id (room id h).0 [] h
Published-nil id h w live = record {
  live = live;
  viewers = refl;
  counter = let c = w.counted in omega arith;
  lines = rw append-nil (
      ap (λ m. drop m (room id h).0.ring)
        (let b = w.bounded in
          let z : 0 ≡ length (room id h).0.ring - ring_size = omega arith in z));
}

-- The hub after one line of the feed.
abbrev pub fed : String → Line × String → Hub → Hub
fed id (l, now) h =
    (after_publish id (record l { text = truncate_line l.text }) now (room id h).0 (room id h).1).1

abbrev pub stored : Line × String → Room → Room
stored (l, now) r = (store_line now (record l { text = truncate_line l.text }) r).1

pub room-fed :
    (id : String) (p : Line × String) (h : Hub) → (room id (fed id p h)).0 ≡ stored p (room id h).0
room-fed id (l, now) h = room-set_room id _ (room id h).1 _

pub fed-IsValid :
    (id : String) (p : Line × String) (h : Hub)
    → IsValid h
    → (room id h).0.dead ≡ false
    → IsValid (fed id p h)
fed-IsValid id (l, now) h v live =
    let (w, v') = room-IsValid id h v in
    after_publish-IsValid id _ now (room id h).0 (room id h).1 live w v'

pub step-fed :
    (id : String) (p : Line × String) (h : Hub)
    → IsValid h
    → (room id h).0.dead ≡ false
    → step (publishes id p.0 p.1) h ≡ some (fed id p h)
unfolding step
step-fed id (l, now) h v live = rw (publish-eq id l now h v live)

pub stored_live : (p : Line × String) (r : Room) → r.dead ≡ false → (stored p r).dead ≡ false
unfolding store_line
stored_live (l, now) r live = live

Published-cons :
    (id : String) (p : Line × String) (feed : Feed) (r : Room) (g : Hub)
    → r.seq < 2 ^ 64
    → Published id (stored p r) feed g
    → Published id r (p ∷ feed) g
unfolding store_line
Published-cons id (l, now) feed r g c pub_rest = record {
  live = pub_rest.live;
  viewers = pub_rest.viewers;
  counter = let e = pub_rest.counter in omega arith;
  lines =
      pub_rest.lines
      ∙ rw cut-take_last (
          take_last-append ring_size (r.ring ++ _ ∷ []) (stamp_all (next_i64 r.seq) feed)
          ∙ ap (take_last ring_size) (append_assoc r.ring (_ ∷ []) _));
}

pub feed-Published :
    (id : String) (feed : Feed) (h : Hub)
    → IsValid h
    → (room id h).0.dead ≡ false
    → Returns (Published id (room id h).0 feed) (run (feed_calls id feed) h)
unfolding run
feed-Published id [] h v live = Published-nil id h (room-IsValid id h v).0 live
feed-Published id (p ∷ feed) h v live = rw (step-fed id p h v live) (
    Returns-mono
      (λ g q.
        Published-cons id p feed (room id h).0 g (room-IsValid id h v).0.counted
          (rw (room-fed id p h) at q))
      (run (feed_calls id feed) (fed id p h))
      (feed-Published id feed (fed id p h) (fed-IsValid id p h v live)
        (rw (room-fed id p h) (stored_live p (room id h).0 live))))

-- What a viewer is told on joining.
abbrev pub replayed : Room → Feed → List Line × ℕ × ℕ
replayed r feed = (
  take_last ring_size (r.ring ++ stamp_all r.seq feed),
  (r.seq + length feed) % 2 ^ 64,
  ring_size,
)

join-Published :
    (id : String) (c : ℕ) (r : Room) (feed : Feed) (g : Hub)
    → Published id r feed g
    → ((join id c g).0 ≡ replayed r feed) × (contains (room id (join id c g).1).0.conns c ≡ true)
unfolding attach
join-Published id c r feed g q =
    rw (join-attach, q.live)
      (
        cc (q.lines, q.counter),
        rw (
          room-set_room id _ (room id g).1 (room id g).1.conns,
          contains-add c c (room id g).0.conns,
          same_refl c,
        ),
      )

-- In a valid hub, after any lines were published to a room that is not deleted, a viewer who joins is
-- registered and is replayed the last 500 of all its lines, old and new, each with its number, is told
-- the number of the last one, and the capacity 500. None of the calls panics.
pub join-replays :
    (id : String) (c : ℕ) (feed : Feed) (h : Hub)
    → IsValid h
    → (room id h).0.dead ≡ false
    → Returns
        (λ g.
          ((join id c g).0 ≡ replayed (room id h).0 feed)
          × (contains (room id (join id c g).1).0.conns c ≡ true))
        (run (feed_calls id feed) h)
join-replays id c feed h v live =
    Returns-mono (join-Published id c (room id h).0 feed) (run (feed_calls id feed) h)
      (feed-Published id feed h v live)
