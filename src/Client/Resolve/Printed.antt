-- ===== src/Client/Resolve/Printed.antt =====
-- The name that a hidden service prints (cmd/hidden/main.go) leads a client to the service's relay:
-- hidden_addr.go, hidden_service_repository.go and resolve_target_address_usecase.go.
use Prim.Native.String.{slice, len}
use Prim.Native.String as Text
use text.Mathlib.TextPositions.{slice-append_right, eq_refl, len-append}
use go_ptor.Common.{
  ℕ, ◌+◌, ◌-◌, ◌≡◌, refl, ap, ◌∙◌, inl, inr, Bool-cases, true, false, List, String, arith, leb, ltb,
}
use go_ptor.Common.Result.{ok}
use go_ptor.Cell.{Bytes}
use go_ptor.Net.{Env}
use go_ptor.Client.Hidden.{HiddenService, find_by_address_string, save, find_by_address_string-save}
use go_ptor.Client.Resolve.{Names, resolve, has_suffix, hidden_target, host_port, new_hidden_addr}

-- What is relied on of strings.ToLower: the suffix stays, and lower case stays lower case.
pub record IsLower (t : Names) : Type 0 where
  pub suffix : (s : String) → t.to_lower (Text.◌++◌ s ".ptor") ≡ Text.◌++◌ (t.to_lower s) ".ptor"
  pub twice : (s : String) → t.to_lower (t.to_lower s) ≡ t.to_lower s

has_suffix-append : (s t : String) → has_suffix (Text.◌++◌ s t) t ≡ true
unfolding has_suffix
has_suffix-append s t =
    let front : len s + len t - len t ≡ len s = omega arith in
    let fits : leb (len t) (len s + len t) ≡ true = ground arith in
    rw (len-append s t, fits, front, slice-append_right s t) (eq_refl t)

named_so :
    (t : Names) (pub_key : Bytes) (address : String)
    → ltb (len (t.base32 (t.sha3 pub_key))) 52 ≡ false
    → new_hidden_addr t pub_key ≡ ok address
    → address ≡ Text.◌++◌ (slice (t.base32 (t.sha3 pub_key)) 0 52) ".ptor"
unfolding new_hidden_addr
named_so t pub_key address long named = cc (long, named)

module _ (t : Names) (laws : IsLower t) where
  -- Such a name ends in ".ptor", also in lower case.
  new_hidden_addr-suffix :
      (pub_key : Bytes) (address : String)
      → new_hidden_addr t pub_key ≡ ok address
      → has_suffix (t.to_lower address) ".ptor" ≡ true
  unfolding new_hidden_addr
  new_hidden_addr-suffix pub_key address named =
      let text = t.base32 (t.sha3 pub_key) in
      elim (Bool-cases (ltb (len text) 52)) [
        | inl short ↦ absurd (cc (named, short))
        | inr long ↦
            let lower : t.to_lower address ≡ Text.◌++◌ (t.to_lower (slice text 0 52)) ".ptor" =
              ap (λ a. t.to_lower a) (named_so t pub_key address long named)
              ∙ laws.suffix (slice text 0 52) in
            rw lower (has_suffix-append (t.to_lower (slice text 0 52)) ".ptor")
      ]

  found-saved :
      (hs : HiddenService) (known : List HiddenService) (host : String)
      → t.to_lower host ≡ t.to_lower hs.address
      → find_by_address_string t.to_lower (t.to_lower host) (save t.to_lower hs known) ≡ ok hs
  found-saved hs known host same =
      let lower : t.to_lower (t.to_lower host) ≡ t.to_lower hs.address = laws.twice host ∙ same in
      find_by_address_string-save t.to_lower hs (t.to_lower host) known
      ∙ rw (lower, eq_refl (t.to_lower hs.address)) refl

  -- Once a hidden service is saved under the name that its key prints, a host that equals this
  -- name up to case resolves to the lower-case name with the port and to the identifier of the
  -- relay of the service, when lower-casing keeps the suffix .ptor and twice is the same as once.
  pub resolve-new_hidden_addr :
      (env : Env) (pub_key : Bytes) (hs : HiddenService) (known : List HiddenService)
      (host : String) (port : ℕ)
      → new_hidden_addr t pub_key ≡ ok hs.address
      → t.to_lower host ≡ t.to_lower hs.address
      → resolve t env (save t.to_lower hs known) host port
        ≡ ok (record {
          dial_address = host_port (t.to_lower host) port;
          exit_relay_id = env.uuid_string hs.relay_id;
        })
  unfolding resolve hidden_target
  resolve-new_hidden_addr env pub_key hs known host port named same =
      let ends : has_suffix (t.to_lower host) ".ptor" ≡ true =
        ap (λ a. has_suffix a ".ptor") same ∙ new_hidden_addr-suffix pub_key hs.address named in
      rw (ends, resolve, found-saved hs known host same) refl
