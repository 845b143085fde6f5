-- ===== src/Client/Streams.antt =====
-- shared/service/stream_manager_service.go. No caller adds a nil
-- connection, so the map holds connections themselves.
use go_ptor.Common.{ℕ, Option, none, some, [], ◌∷◌, ℕ_discrete}
use go_ptor.Common.Map.{Map, lookup, insert, delete}
use go_ptor.Value.Stream.{StreamId}
use go_ptor.Net.{History, close}
use go_ptor.Client.World.{World}

unfoldable pub add : StreamId → ℕ → World → World
add sid c w = record w { streams = insert ℕ_discrete sid c w.streams }

unfoldable pub get : StreamId → World → Option ℕ
get sid w = lookup ℕ_discrete sid w.streams

unfoldable pub close_found : StreamId → Option ℕ → World → World
close_found sid none w = w
close_found sid (some c) w = record w {
  history = close c w.history;
  streams = delete ℕ_discrete sid w.streams;
}

unfoldable pub remove : StreamId → World → World
unfolding close_found
remove sid w = close_found sid (lookup ℕ_discrete sid w.streams) w

unfoldable pub close_loop : Map StreamId ℕ → History → History
close_loop [] h = h
close_loop ((sid, c) ∷ m) h = close_loop m (close c h)

unfoldable pub close_all : World → World
unfolding close_loop
close_all w = record w { history = close_loop w.streams w.history; streams = [] }
