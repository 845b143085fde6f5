-- ===== src/Client/Directory/Start.antt =====
-- What a client knows after loading the directory (NewRelayRepository of relay_repository.go).
use go_ptor.Common.{
  ℕ, suc, ◌+◌, ◌%◌, ◌^◌, ◌≡◌, refl, sym, ap, some, List, [], ◌∷◌, arith, length, String,
}
use go_ptor.Common.Result.{Result, ok, err, panic, ◌>>=◌, bad_endpoint, bad_port}
use go_ptor.Net.{Env}
use go_ptor.Value.Relay.{new_relay_id}
use go_ptor.Keys.{KeyFormats, rsa_pub_key_from_pem, or_error}
use go_ptor.Client.Resolve.{Names, new_endpoint, endpoint_string}
use go_ptor.Client.Directory.{Relay, new_relay, set_online, online_of, or_not_found, all_online}
use go_ptor.Client.Directory.Laws.{IsOnline}
use go_ptor.Client.Directory.Load.{RelayDto, pos, to_uint16, Web, load_relay, load_relays}

-- A chain that succeeds does so because its first call does.
bind-ok :
    {A B : Type 0} (r : Result A) (g : A → Result B) {b : B}
    → (r >>= g) ≡ ok b
    → (a : A) × (r ≡ ok a) × (g a ≡ ok b)
bind-ok (ok a) g e = (a, refl, e)
bind-ok (err x) g e = absurd (cc e)
bind-ok panic g e = absurd (cc e)

module _ (env : Env) (web : Web) (t : Names) (f : KeyFormats) where
  load_relay-IsOnline : (d : RelayDto) {r : Relay} → load_relay env web t f d ≡ ok r → IsOnline r
  unfolding load_relay new_relay set_online
  load_relay-IsOnline d {r} e =
      let (id, e₁, k₁) = bind-ok (new_relay_id env d.id) _ e in
      let (parts, e₂, k₂) = bind-ok (or_error bad_endpoint (web.split_host_port d.endpoint)) _ k₁ in
      let (port, e₃, k₃) = bind-ok (or_error bad_port (web.atoi parts.1)) _ k₂ in
      let (endpoint, e₄, k₄) = bind-ok (new_endpoint t parts.0 (to_uint16 port)) _ k₃ in
      let (key, e₅, k₅) = bind-ok (rsa_pub_key_from_pem f d.pub_key) _ k₄ in
      let same : set_online (new_relay id (endpoint_string endpoint)) ≡ r = cc k₅ in
      ap (λ a. a.online) (sym same)

  loaded :
      (ds : List RelayDto) {rs : List Relay}
      → load_relays env web t f ds ≡ ok rs
      → (online_of rs ≡ rs) × (length rs ≡ length ds)
  unfolding load_relays online_of
  loaded [] {rs} e = let same : [] ≡ rs = cc e in rw (← same) (refl, refl)
  loaded (d ∷ ds) {rs} e =
      let (r, e₁, k₁) = bind-ok (load_relay env web t f d) _ e in
      let (rest, e₂, k₂) = bind-ok (load_relays env web t f ds) _ k₁ in
      let same : r ∷ rest ≡ rs = cc k₂ in
      let (all, size) = loaded ds e₂ in
      rw (← same, load_relay-IsOnline d e₁, all, size) (refl, refl)

  -- When loading a directory that is not empty succeeds, AllOnline returns every relay that was
  -- loaded, and there are as many as entries.
  pub all_online-load_relays :
      (d : RelayDto) (ds : List RelayDto) (rs : List Relay)
      → load_relays env web t f (d ∷ ds) ≡ ok rs
      → (all_online rs ≡ ok rs) × (length rs ≡ suc (length ds))
  unfolding all_online or_not_found
  all_online-load_relays d ds [] e =
      let (all, size) = loaded (d ∷ ds) e in absurd (omega (arith, size))
  all_online-load_relays d ds (r ∷ rs) e =
      let (all, size) = loaded (d ∷ ds) e in (rw all refl, size)

  -- A directory entry whose port is 65536 too large is loaded as the same relay as the entry with
  -- the port itself, or fails as that does.
  pub load_relay-wraps :
      (d : RelayDto) (endpoint host port port' : String) (n : ℕ)
      → web.split_host_port d.endpoint ≡ some (host, port)
      → web.split_host_port endpoint ≡ some (host, port')
      → web.atoi port ≡ some (pos n)
      → web.atoi port' ≡ some (pos (n + 65536))
      → load_relay env web t f (record d { endpoint = endpoint }) ≡ load_relay env web t f d
  unfolding load_relay to_uint16 or_error
  load_relay-wraps d endpoint host port port' n e e' a a' =
      let wrap : (n + 65536) % 2 ^ 16 ≡ n % 2 ^ 16 = omega arith in rw (e, e', a, a', wrap) refl
