-- ===== src/Hub/Tests.antt =====
-- The hub on concrete histories.
use teploy_arcade.Prelude.{
  Bytes, ℕ, true, false, List, [], ◌∷◌, ◌≡◌, refl, map, arith, contains, add, lookup, insert,
  nat_key, string_key, Returns, ◌⊎◌,
}
use teploy_arcade.Prelude.Int.{pos}
use teploy_arcade.Hub.Conn.{Line, line, new_conn, try_send}
use teploy_arcade.Hub.Rooms.{
  Hub, Heap, update, new_hub, room, attach, join, publish, publish_live, store_line, stamp,
  truncate_line, for_conns, tail, drop_room, Call, joins, leaves, publishes, drops, step, run,
  decimal,
}
use teploy_arcade.Hub.Heap.{AllSound, new_conn-IsSound}
use teploy_arcade.Hub.Valid.{IsValid}
use teploy_arcade.Hub.History.{run-IsValid, new_hub-IsValid, step-Returns}
use teploy_arcade.Hub.Replay.{Feed, feed_calls, stamp_all, replayed, join-replays}
use teploy_arcade.Hub.Tombstone.{IsGone, drop_final}
use teploy_arcade.Hub.Delivery.{Reached, Received, publish_reaches, feed-Received, drop_closes}

abbrev sockets : Heap
sockets c = new_conn 1

sockets-AllSound : AllSound sockets
sockets-AllSound c = new_conn-IsSound 1

abbrev said : Bytes → Line
said text = record { seq = 0; ts = ""; level = ""; source = ""; text = text }

abbrev feed : Feed
feed = (said (104 ∷ []), "10:00:00") ∷ (said (105 ∷ []), "10:00:01") ∷ []

abbrev empty : Hub
empty = new_hub sockets

empty-IsValid : IsValid empty
empty-IsValid = new_hub-IsValid sockets sockets-AllSound

-- One viewer, number 7, in the room "a".
abbrev viewed : Hub
viewed = (join "a" 7 empty).1

viewed-IsValid : IsValid viewed
unfolding step
viewed-IsValid = step-Returns (joins "a" 7) empty empty-IsValid

abbrev history : List Call
history =
    joins "a" 1
    ∷ publishes "a" (said []) "09:00:00"
    ∷ leaves "a" 1
    ∷ drops "a"
    ∷ leaves "a" 1
    ∷ publishes "a" (said []) "09:00:01"
    ∷ drops "a"
    ∷ []

run-IsValid_example : Returns IsValid (run history empty)
run-IsValid_example = run-IsValid history sockets sockets-AllSound

join-replays_example :
    Returns
      (λ g.
        ((join "a" 3 g).0 ≡ replayed (room "a" viewed).0 feed)
        × (contains (room "a" (join "a" 3 g).1).0.conns 3 ≡ true))
      (run (feed_calls "a" feed) viewed)
unfolding join attach room lookup insert new_hub
join-replays_example = join-replays "a" 3 feed viewed viewed-IsValid refl

drop_final_example : Returns (IsGone "a") (run (drops "a" ∷ history) viewed)
drop_final_example = drop_final "a" history viewed viewed-IsValid

publish_reaches_example :
    Returns
      (λ r.
        (c : ℕ)
        → Reached (contains (room "a" viewed).0.conns c) (line r.0) (viewed.conns c) (r.1.conns c))
      (publish "a" (said []) "09:00:00" viewed)
unfolding join attach room lookup insert new_hub
publish_reaches_example = publish_reaches "a" (said []) "09:00:00" viewed viewed-IsValid refl

feed-Received_example :
    Returns
      (λ g.
        Received (map line (stamp_all (room "a" viewed).0.seq feed)) (viewed.conns 7) (g.conns 7))
      (run (feed_calls "a" feed) viewed)
unfolding join attach room lookup insert new_hub add contains new_conn
feed-Received_example = feed-Received "a" 7 feed viewed viewed-IsValid refl refl refl (omega arith)

drop_closes_example :
    Returns
      (λ g.
        (c : ℕ)
        → ((contains (room "a" viewed).0.conns c ≡ true)
            × ((g.conns c).closed ≡ true)
            × ((g.conns c).send.queue ≡ (viewed.conns c).send.queue))
          ⊎ ((contains (room "a" viewed).0.conns c ≡ false) × (g.conns c ≡ viewed.conns c)))
      (drop_room "a" viewed)
drop_closes_example = drop_closes "a" viewed viewed-IsValid

-- The second line finds the buffer of one message full.
shed_one : Returns (λ g. (g.conns 7).dropped ≡ 1) (run (feed_calls "a" feed) viewed)
unfolding run step join attach room lookup insert new_hub add contains new_conn publish publish_live
    store_line stamp for_conns try_send update truncate_line
shed_one = refl

numbered_from_one :
    Returns
      (λ g. map (λ l. l.seq) (tail "a" (pos 5) g) ≡ 1 ∷ 2 ∷ [])
      (run (feed_calls "a" feed) viewed)
unfolding run step join attach room lookup insert new_hub add contains new_conn publish publish_live
    store_line stamp for_conns try_send update truncate_line tail
numbered_from_one = refl

decimal_of_9000 : decimal 9000 ≡ 57 ∷ 48 ∷ 48 ∷ 48 ∷ []
unfolding decimal
decimal_of_9000 = refl
