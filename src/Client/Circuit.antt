-- ===== src/Client/Circuit.antt =====
-- shared/domain/entity/circuit.go: what the client holds for one circuit. Hops are numbered from 0,
-- the maps keyed by hops give the zero value at a key they do not have, and the counters are uint64.
pub mod Hops
use go_ptor.Common.{
  ℕ, suc, Bool, true, false, not, ◌||◌, Option, none, some, List, [], ◌∷◌, ◌==◌, ltb, if◌then◌else◌,
  length, get_or, set, replicate, map, ℕ_discrete,
}
use go_ptor.Common.Map.{Map, lookup, insert}
use go_ptor.Common.Result.{Result, ok, err, length_mismatch, no_private_key}
use go_ptor.Value.Circuit.{CircuitId}
use go_ptor.Value.Relay.{RelayId}
use go_ptor.Value.Stream.{StreamId, new_stream_id_auto}
use go_ptor.Cell.{Bytes}
use go_ptor.Crypto.{Key, zero_key}
use go_ptor.Nonce.{Nonce, zero_nonce, modify_nonce_with_sequence, increment}
use go_ptor.Net.{Conn}
use go_ptor.Relay.ConnState.{MessageType, begin, content, upstream_content, connect, other}

pub record StreamState : Type 0 where
  pub id : StreamId
  pub closed : Bool

-- `none` is a nil private key.
pub record Circuit : Type 0 where
  pub id : CircuitId
  pub hops : List RelayId
  pub keys : Map ℕ Key
  pub base_nonces : Map ℕ Nonce
  pub begin_counter : Map ℕ ℕ
  pub data_counter : Map ℕ ℕ
  pub upstream_data_counter : Map ℕ ℕ
  pub priv : Option Bytes
  pub conns : List Conn
  pub stream : Map StreamId StreamState

module _ {A : Type 0} where
  or_zero : A → Option A → A
  or_zero z none = z
  or_zero z (some a) = a

  -- `m[idx]`
  unfoldable pub at_hop : A → Map ℕ A → ℕ → A
  unfolding or_zero
  at_hop z m idx = or_zero z (lookup ℕ_discrete idx m)

  -- `for i := range xs { m[i] = xs[i] }`
  unfoldable pub numbered : ℕ → List A → Map ℕ A → Map ℕ A
  numbered i [] m = m
  numbered i (x ∷ xs) m = numbered (suc i) xs (insert ℕ_discrete i x m)

has_key : Option Bytes → Bool
has_key none = false
has_key (some priv) = true

unfoldable pub new_circuit :
    CircuitId → List RelayId → List Key → List Nonce → Option Bytes → Result Circuit
unfolding has_key numbered
new_circuit id relays keys nonces priv =
    let zeros = replicate (length keys) 0 in
    if length relays == 0
      || not (length relays == length keys)
      || not (length keys == length nonces)
    then err length_mismatch
    else if not (has_key priv)
    then err no_private_key
    else ok (record {
      id = id;
      hops = relays;
      keys = numbered 0 keys [];
      base_nonces = numbered 0 nonces [];
      begin_counter = numbered 0 zeros [];
      data_counter = numbered 0 zeros [];
      upstream_data_counter = numbered 0 zeros [];
      priv = priv;
      conns = replicate (length relays) none;
      stream = [];
    })

unfoldable pub hop_key : ℕ → Circuit → Key
unfolding at_hop
hop_key idx c = at_hop zero_key c.keys idx

unfoldable pub hop_base_nonce : ℕ → Circuit → Nonce
unfolding at_hop
hop_base_nonce idx c = at_hop zero_nonce c.base_nonces idx

-- `m[idx]++`
unfoldable pub bump : ℕ → Map ℕ ℕ → Map ℕ ℕ
unfolding at_hop
bump idx m = insert ℕ_discrete idx (increment (at_hop 0 m idx)) m

-- HopBeginNoncePeek, HopDataNoncePeek and HopUpstreamDataNoncePeek
unfoldable pub hop_begin_nonce_peek : ℕ → Circuit → Nonce
unfolding hop_base_nonce
hop_begin_nonce_peek idx c =
    modify_nonce_with_sequence (hop_base_nonce idx c) (at_hop 0 c.begin_counter idx)

unfoldable pub hop_data_nonce_peek : ℕ → Circuit → Nonce
unfolding hop_base_nonce
hop_data_nonce_peek idx c =
    modify_nonce_with_sequence (hop_base_nonce idx c) (at_hop 0 c.data_counter idx)

unfoldable pub hop_upstream_data_nonce_peek : ℕ → Circuit → Nonce
unfolding hop_base_nonce
hop_upstream_data_nonce_peek idx c =
    modify_nonce_with_sequence (hop_base_nonce idx c) (at_hop 0 c.upstream_data_counter idx)

-- HopBeginNonce, HopDataNonce and HopUpstreamDataNonce
unfoldable pub hop_begin_nonce : ℕ → Circuit → Nonce × Circuit
unfolding bump hop_begin_nonce_peek
hop_begin_nonce idx c =
    (hop_begin_nonce_peek idx c, record c { begin_counter = bump idx c.begin_counter })

unfoldable pub hop_data_nonce : ℕ → Circuit → Nonce × Circuit
unfolding bump hop_data_nonce_peek
hop_data_nonce idx c =
    (hop_data_nonce_peek idx c, record c { data_counter = bump idx c.data_counter })

unfoldable pub hop_upstream_data_nonce : ℕ → Circuit → Nonce × Circuit
unfolding bump hop_upstream_data_nonce_peek
hop_upstream_data_nonce idx c = (
  hop_upstream_data_nonce_peek idx c,
  record c { upstream_data_counter = bump idx c.upstream_data_counter },
)

unfoldable pub wipe_keys : Circuit → Circuit
wipe_keys c = record c {
  keys = map (λ e. (e.0, zero_key)) c.keys;
  base_nonces = map (λ e. (e.0, zero_nonce)) c.base_nonces;
  priv = none;
}

-- With the process-wide counter of stream identifiers; it never fails.
unfoldable pub open_stream : ℕ → Circuit → (ℕ × StreamId) × Circuit
open_stream counter c =
    let sid = (new_stream_id_auto counter).1 in
    (
      new_stream_id_auto counter,
      record c { stream = insert ℕ_discrete sid (record { id = sid; closed = false }) c.stream },
    )

mark_closed : StreamId → Option StreamState → Circuit → Circuit
mark_closed sid none c = c
mark_closed sid (some st) c = record c {
  stream = insert ℕ_discrete sid (record st { closed = true }) c.stream;
}

unfoldable pub close_stream : StreamId → Circuit → Circuit
unfolding mark_closed
close_stream sid c = mark_closed sid (lookup ℕ_discrete sid c.stream) c

unfoldable pub open_ids : Map StreamId StreamState → List StreamId
open_ids [] = []
open_ids ((sid, st) ∷ m) = let rest = open_ids m in if not st.closed then sid ∷ rest else rest

unfoldable pub active_streams : Circuit → List StreamId
unfolding open_ids
active_streams c = open_ids c.stream

-- Conn and SetConn
unfoldable pub conn : ℕ → Circuit → Conn
conn i c = get_or c.conns i none

unfoldable pub set_conn : ℕ → Conn → Circuit → Circuit
set_conn i d c = if ltb i (length c.conns) then record c { conns = set c.conns i d } else c

unfoldable pub get_message_type_nonce : ℕ → MessageType → Circuit → Nonce × Circuit
unfolding hop_begin_nonce hop_data_nonce hop_upstream_data_nonce
get_message_type_nonce idx begin c = hop_begin_nonce idx c
get_message_type_nonce idx connect c = hop_begin_nonce idx c
get_message_type_nonce idx content c = hop_data_nonce idx c
get_message_type_nonce idx upstream_content c = hop_upstream_data_nonce idx c
get_message_type_nonce idx other c = hop_data_nonce idx c

unfoldable pub increment_counter : ℕ → MessageType → Circuit → Circuit
unfolding bump
increment_counter idx begin c = record c { begin_counter = bump idx c.begin_counter }
increment_counter idx connect c = record c { begin_counter = bump idx c.begin_counter }
increment_counter idx content c = record c { data_counter = bump idx c.data_counter }
increment_counter idx upstream_content c = record c {
  upstream_data_counter = bump idx c.upstream_data_counter;
}
increment_counter idx other c = c
