-- ===== src/Relay/ConnState/Nonces.antt =====
-- How the nonces of one circuit relate (shared/domain/entity/conn_state.go).
use go_ptor.Common.{
  ℕ, suc, ◌+◌, ◌≡◌, ◌<◌, ◌↔◌, ◌^◌, ◌∙◌, arith, refl, List, [], ◌∷◌, ◌==◌, if◌then◌else◌,
}
use go_ptor.Nonce.{Nonce, IsNonce, modify_nonce_with_sequence, increment}
use go_ptor.Nonce.Unique.{modify_nonce_with_sequence-injective}
use go_ptor.Relay.ConnState.{
  ConnState, MessageType, begin, upstream_content, connect, get_message_type_nonce,
}

-- The state after a nonce was taken for each message of a list.
abbrev pub after : List MessageType → ConnState → ConnState
after [] s = s
after (t ∷ ts) s = after ts (get_message_type_nonce t s).1

-- The nonce that the next message of a type gets.
abbrev pub nonce_of : MessageType → ConnState → Nonce
nonce_of t s = (get_message_type_nonce t s).0

-- The counter that a message type uses, by number and by value.
abbrev pub counter_number : MessageType → ℕ
counter_number begin = 0
counter_number connect = 0
counter_number upstream_content = 2
counter_number _ = 1

abbrev pub counter_of : MessageType → ConnState → ℕ
counter_of begin s = s.begin_counter
counter_of connect s = s.begin_counter
counter_of upstream_content s = s.upstream_data_counter
counter_of _ s = s.data_counter

-- How many of the messages use the counter of type `t`.
abbrev pub uses : MessageType → List MessageType → ℕ
uses t [] = 0
uses t (u ∷ ts) = if counter_number u == counter_number t then suc (uses t ts) else uses t ts

pub nonce_of_lem :
    (t : MessageType) (s : ConnState)
    → nonce_of t s ≡ modify_nonce_with_sequence s.base_nonce (counter_of t s)
unfolding get_message_type_nonce
nonce_of_lem begin s = refl
nonce_of_lem _ s = refl

base-step :
    (t : MessageType) (s : ConnState) → (get_message_type_nonce t s).1.base_nonce ≡ s.base_nonce
unfolding get_message_type_nonce
base-step begin s = refl
base-step _ s = refl

counter-step :
    (t u : MessageType) (s : ConnState)
    → counter_of t s + uses t (u ∷ []) < 2 ^ 64
    → counter_of t (get_message_type_nonce u s).1
      ≡ (if counter_number u == counter_number t then suc (counter_of t s) else counter_of t s)
unfolding get_message_type_nonce increment
counter-step t u s h = ground arith

base-after : (ts : List MessageType) (s : ConnState) → (after ts s).base_nonce ≡ s.base_nonce
base-after [] s = refl
base-after (t ∷ ts) s = base-after ts _ ∙ base-step t s

counter-after :
    (t : MessageType) (ts : List MessageType) (s : ConnState)
    → counter_of t s + uses t ts < 2 ^ 64
    → counter_of t (after ts s) ≡ counter_of t s + uses t ts
counter-after t [] s h = omega arith
counter-after t (u ∷ ts) s h =
    ground
      (arith, counter-step t u s (ground arith), counter-after t ts (get_message_type_nonce u s).1)

same_nonce :
    (t u : MessageType) (s : ConnState) (ts us : List MessageType)
    → counter_of t s + uses t ts < 2 ^ 64
    → counter_of u s + uses u us < 2 ^ 64
    → counter_of t s + uses t ts ≡ counter_of u s + uses u us
    → nonce_of t (after ts s) ≡ nonce_of u (after us s)
same_nonce t u s ts us ht hu e = cc (
  nonce_of_lem t (after ts s),
  nonce_of_lem u (after us s),
  base-after ts s,
  base-after us s,
  counter-after t ts s ht,
  counter-after u us s hu,
  e,
)

same_count :
    (t u : MessageType) (s : ConnState) (ts us : List MessageType)
    → IsNonce s.base_nonce
    → counter_of t s + uses t ts < 2 ^ 64
    → counter_of u s + uses u us < 2 ^ 64
    → nonce_of t (after ts s) ≡ nonce_of u (after us s)
    → counter_of t s + uses t ts ≡ counter_of u s + uses u us
same_count t u s ts us v ht hu e = omega (
  arith,
  counter-after t ts s ht,
  counter-after u us s hu,
  modify_nonce_with_sequence-injective s.base_nonce (counter_of t (after ts s))
      (counter_of u (after us s)) v (omega (arith, counter-after t ts s ht))
      (omega (arith, counter-after u us s hu))
      (cc (
        nonce_of_lem t (after ts s),
        nonce_of_lem u (after us s),
        base-after ts s,
        base-after us s,
        e,
      )),
)

-- Two messages of a circuit, of any two types and each after any interleaving of messages from the
-- same state, get the same nonce exactly when the counters of their types stand at the same
-- number, that is the number at the start and one for each message on the counter that went
-- before. The base nonce has 12 bytes and the counters stay below 2^64.
pub nonces_shared :
    (t u : MessageType) (s : ConnState) (ts us : List MessageType)
    → IsNonce s.base_nonce
    → counter_of t s + uses t ts < 2 ^ 64
    → counter_of u s + uses u us < 2 ^ 64
    → (nonce_of t (after ts s) ≡ nonce_of u (after us s))
      ↔ (counter_of t s + uses t ts ≡ counter_of u s + uses u us)
nonces_shared t u s ts us v ht hu = (same_count t u s ts us v ht hu, same_nonce t u s ts us ht hu)
