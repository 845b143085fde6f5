-- ===== src/Tests/Start.antt =====
-- The client's start and its SOCKS5 side at concrete inputs; no code of the repository.
use Prim.Native.String as Text
use text.Mathlib.Text.{◌==◌ as str_eq}
use go_ptor.Common.{
  ℕ, zero, suc, String, ◌+◌, ◌≡◌, refl, true, none, some, List, [], ◌∷◌, replicate, take, ◌++◌,
  ◌==◌, if◌then◌else◌,
}
use go_ptor.Common.Result.{ok}
use go_ptor.Net.{Env}
use go_ptor.Keys.{KeyFormats, rsa_key}
use go_ptor.Value.Command.{cmd_created, protocol_v1}
use go_ptor.Client.World.{World, Services}
use go_ptor.Client.Hidden
use go_ptor.Client.Hidden.{HiddenService}
use go_ptor.Client.Directory.{Relay}
use go_ptor.Client.Directory.Load.{RelayDto, Web, pos, load_relay}
use go_ptor.Client.Directory.Start.{load_relay-wraps}
use go_ptor.Client.Resolve.{Names, resolve, host_port, new_hidden_addr}
use go_ptor.Client.Resolve.Printed.{resolve-new_hidden_addr}
use go_ptor.Client.Socks.{Texts}
use go_ptor.Client.Controller.{Reads, handle_connection}
use go_ptor.Client.Controller.Registered.{Kept, handle_connection-Kept}
use go_ptor.Tests.Setting.{to_text, test_env, test_gob}
use go_ptor.Tests.Keys.{formats}
use go_ptor.Tests.Client.{services, world}

-- A directory with one port that fits in 16 bits and one that does not.
abbrev web : Web
web = record {
  get = λ url. none;
  relays_json = λ b. none;
  hidden_services_json = λ b. none;
  split_host_port = λ s. some ("relay", s);
  atoi = λ s. if str_eq s "5000" then some (pos 5000) else some (pos (5000 + 65536));
}

-- A text has only lower-case letters here, and a hash prints as 56 of them.
abbrev letters : ℕ → String
letters zero = ""
letters (suc n) = Text.◌∷◌ "a" (letters n)

abbrev names : Names
names = record {
  parse_ip = λ s. none;
  to4 = λ ip. none;
  to16 = λ ip. none;
  to_lower = λ s. s;
  sha3 = λ b. replicate 32 0;
  base32 = λ b. letters 56;
}

abbrev rsa_formats : KeyFormats
rsa_formats = record formats { parse_pkix_public = λ der. some (rsa_key der) }

abbrev entry : RelayDto
entry = record { id = to_text (replicate 16 1); endpoint = "5000"; pub_key = 3 ∷ [] }

abbrev loaded : List Relay
loaded = record { id = replicate 16 1; endpoint = host_port "relay" 5000; online = true } ∷ []

load_relay-wraps_example :
    load_relay test_env web names rsa_formats (record entry { endpoint = "70536" })
    ≡ load_relay test_env web names rsa_formats entry
load_relay-wraps_example =
    load_relay-wraps test_env web names rsa_formats entry "70536" "relay" "5000" "70536" 5000 refl
      refl refl refl

abbrev printed : String
printed = Text.◌++◌ (letters 52) ".ptor"

abbrev shop : HiddenService
shop = record { address = printed; relay_id = replicate 16 2 }

resolve-new_hidden_addr_example :
    resolve names test_env (Hidden.save names.to_lower shop []) printed 80
    ≡ ok (record { dial_address = host_port printed 80; exit_relay_id = to_text (replicate 16 2) })
unfolding new_hidden_addr
resolve-new_hidden_addr_example =
    resolve-new_hidden_addr names (record { suffix = λ s. refl; twice = λ s. refl }) test_env
      (7 ∷ []) shop [] printed 80 refl refl

abbrev texts : Texts
texts = record { ip_string = λ b. "10.0.0.1"; of_bytes = λ b. "host" }

-- Reads find a SOCKS5 request for an IPv4 address, and a CREATED answer.
abbrev answering : Env
answering = record test_env {
  read_full = λ h c n. ok (
      if n == 20
      then replicate 16 0 ++ (cmd_created ∷ protocol_v1 ∷ 0 ∷ 1 ∷ [])
      else take n (5 ∷ 1 ∷ 0 ∷ 1 ∷ []));
}

abbrev client : Services
client = record services {
  env = answering;
  gob = record test_gob {
    extend = record { gob_encode = λ p. some (0 ∷ []); gob_decode = λ b. none };
    created = record { gob_encode = λ p. none; gob_decode = λ b. some (record { relay_pub = [] }) };
    begin = record { gob_encode = λ p. some (0 ∷ []); gob_decode = λ b. none };
  };
  exchange = record {
    generate_key = λ h. some ([], []);
    ecdh = λ a b. some [];
    hkdf = λ s. some (replicate 32 3, replicate 12 4);
  };
  generate_rsa = λ h. some [];
}

-- One connection is registered.
abbrev before : World
before = record world { streams = (9, 4) ∷ [] }

-- A client that sends one byte and closes its connection.
abbrev one_byte : Reads
one_byte = record { chunks = (1 ∷ []) ∷ []; last = []; at_eof = true }

handle_connection-Kept_example :
    Kept before (handle_connection client texts names loaded [] 1 8 one_byte before).1
handle_connection-Kept_example =
    handle_connection-Kept client texts names loaded [] 1 8 one_byte before

abbrev run : World
run = (handle_connection client texts names loaded [] 1 8 one_byte before).1
