-- ===== src/Net.antt =====
-- What the program asks of the operating system and of packages that are not in the repository:
-- connections, randomness, names, UUIDs. The answers come from an `Env`, which may answer each
-- request by everything that has happened so far, so it stands for any network and any peer that
-- lets each call return: a read or a write that waits for ever has no answer here.
use go_ptor.Common.{
  ℕ, ◌≡◌, Bool, Option, none, some, List, [], ◌∷◌, ltb, if◌then◌else◌, length, take, drop, String,
}
use go_ptor.Common.Result.{
  Result, ok, err, panic, eof, read_failed, write_failed, dial_failed, bad_uuid,
}
use go_ptor.Common.Exec.{Exec}
use go_ptor.Cell.{Bytes, Cell, encode}
use go_ptor.Value.Circuit.{CircuitId}

-- A net.Conn: `none` is nil.
abbrev pub Conn : Type 0
Conn = Option ℕ

pub data Event : Type 0 where
  wrote : ℕ → Bytes → Event
  write_broke : ℕ → Event
  closed : ℕ → Event
  read : ℕ → ℕ → Event
  dialed : String → Event
  drew : Event

-- Newest first.
abbrev pub History : Type 0
History = List Event

pub record Env : Type 0 where
  pub rand : History → ℕ → Option Bytes
  pub writable : History → ℕ → Bytes → Bool
  pub read_full : History → ℕ → ℕ → Result Bytes
  pub dial_tcp : History → String → Option ℕ
  pub getenv : String → String
  pub now : History → ℕ
  pub uuid_string : Bytes → String
  pub uuid_parse : String → Option Bytes
  pub uuid_version : Bytes → ℕ

-- github.com/google/uuid: parsing undoes printing.
pub record IsUuidText (env : Env) : Type 0 where
  pub parse_string : (b : Bytes) → length b ≡ 16 → env.uuid_parse (env.uuid_string b) ≡ some b

parsed : Option Bytes → Result CircuitId
parsed none = err bad_uuid
parsed (some b) = ok (record { val = b })

-- vo.CircuitIDFrom and CircuitID.String
unfoldable pub circuit_id_from : Env → String → Result CircuitId
unfolding parsed
circuit_id_from env s = parsed (env.uuid_parse s)

unfoldable pub circuit_id_string : Env → CircuitId → String
circuit_id_string env cid = env.uuid_string cid.val

-- io.ReadFull on a reader that holds these bytes and then ends.
unfoldable pub read_bytes : ℕ → Exec Bytes Bytes
read_bytes n s =
    if ltb (length s) n
    then (elim s [ [] ↦ err eof | _ ↦ err read_failed ], [])
    else (ok (take n s), drop n s)

-- conn.Close(): its error is dropped everywhere.
unfoldable pub close : ℕ → History → History
close c h = closed c ∷ h

module _ (env : Env) where
  -- w.Write(b)
  unfoldable pub write : Conn → Bytes → Exec History (Unit {0})
  write none b h = (panic, h)
  write (some c) b h =
      if env.writable h c b then (ok tt, wrote c b ∷ h) else (err write_failed, write_broke c ∷ h)

  -- io.ReadFull(conn, buf) with a buffer of `n` bytes
  unfoldable pub read_conn : Conn → ℕ → Exec History Bytes
  read_conn none n h = (panic, h)
  read_conn (some c) n h = (env.read_full h c n, read c n ∷ h)

  dial_result : Option ℕ → Result ℕ
  dial_result none = err dial_failed
  dial_result (some c) = ok c

  -- net.Dial("tcp", addr)
  unfoldable pub dial : String → Exec History ℕ
  unfolding dial_result
  dial addr h = (dial_result (env.dial_tcp h addr), dialed addr ∷ h)

  -- entity.Encode with the bytes that rand.Read gives next; the draw is recorded for a payload that is
  -- refused too
  unfoldable pub encode_now : Cell → Exec History Bytes
  encode_now c h = (encode (env.rand h) c, drew ∷ h)
