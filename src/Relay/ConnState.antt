-- ===== src/Relay/ConnState.antt =====
-- shared/domain/entity/conn_state.go: what a relay holds for one circuit. The counters are uint64.
pub mod Nonces
use go_ptor.Common.{ℕ, Bool, true, false, Option, none, some}
use go_ptor.Crypto.{Key}
use go_ptor.Net.{Conn, History, close}
use go_ptor.Nonce.{Nonce, modify_nonce_with_sequence, increment}

-- The constants of MessageType, and any other value of the type.
pub data MessageType : Type 0 where
  begin content upstream_content connect other : MessageType

pub record ConnState : Type 0 where
  pub key : Key
  pub base_nonce : Nonce
  pub begin_counter : ℕ
  pub data_counter : ℕ
  pub upstream_data_counter : ℕ
  pub up : Conn
  pub down : Conn
  pub last : ℕ
  pub hidden : Bool
  pub served : Bool

-- `now` is what time.Now returns.
unfoldable pub new_conn_state : Key → Nonce → Conn → Conn → ℕ → ConnState
new_conn_state key nonce up down now = record {
  key = key;
  base_nonce = nonce;
  begin_counter = 0;
  data_counter = 0;
  upstream_data_counter = 0;
  up = up;
  down = down;
  last = now;
  hidden = false;
  served = false;
}

unfoldable pub new_conn_state_with_counters : Key → Nonce → Conn → Conn → ℕ → ℕ → ℕ → ConnState
new_conn_state_with_counters key nonce up down begin_counter data_counter now = record {
  key = key;
  base_nonce = nonce;
  begin_counter = begin_counter;
  data_counter = data_counter;
  upstream_data_counter = 0;
  up = up;
  down = down;
  last = now;
  hidden = false;
  served = false;
}

unfoldable pub get_counters : ConnState → ℕ × ℕ
get_counters s = (s.begin_counter, s.data_counter)

unfoldable pub begin_nonce : ConnState → Nonce × ConnState
begin_nonce s = (
  modify_nonce_with_sequence s.base_nonce s.begin_counter,
  record s { begin_counter = increment s.begin_counter },
)

unfoldable pub data_nonce : ConnState → Nonce × ConnState
data_nonce s = (
  modify_nonce_with_sequence s.base_nonce s.data_counter,
  record s { data_counter = increment s.data_counter },
)

unfoldable pub upstream_data_nonce : ConnState → Nonce × ConnState
upstream_data_nonce s = (
  modify_nonce_with_sequence s.base_nonce s.upstream_data_counter,
  record s { upstream_data_counter = increment s.upstream_data_counter },
)

unfoldable pub touch : ℕ → ConnState → ConnState
touch now s = record s { last = now }

unfoldable pub set_hidden : Bool → ConnState → ConnState
set_hidden v s = record s { hidden = v }

unfoldable pub mark_served : ConnState → ConnState
mark_served s = record s { served = true }

-- `if c != nil { c.Close() }`
unfoldable pub close_conn : Conn → History → History
close_conn none h = h
close_conn (some c) h = close c h

-- ConnState.Close
unfoldable pub close_both : ConnState → History → History
unfolding close_conn
close_both s h = close_conn s.down (close_conn s.up h)

unfoldable pub get_message_type_nonce : MessageType → ConnState → Nonce × ConnState
unfolding begin_nonce data_nonce upstream_data_nonce
get_message_type_nonce begin s = begin_nonce s
get_message_type_nonce connect s = begin_nonce s
get_message_type_nonce content s = data_nonce s
get_message_type_nonce upstream_content s = upstream_data_nonce s
get_message_type_nonce other s = data_nonce s

unfoldable pub increment_counter : MessageType → ConnState → ConnState
increment_counter begin s = record s { begin_counter = increment s.begin_counter }
increment_counter connect s = record s { begin_counter = increment s.begin_counter }
increment_counter content s = record s { data_counter = increment s.data_counter }
increment_counter upstream_content s = record s {
  upstream_data_counter = increment s.upstream_data_counter;
}
increment_counter other s = s
