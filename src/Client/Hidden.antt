-- ===== src/Client/Hidden.antt =====
-- Hidden services: shared/domain/entity/hidden_service.go and
-- cmd/client/infrastructure/repository/hidden_service_repository.go. `to_lower` is strings.ToLower.
use text.Mathlib.Text.{◌==◌ as str_eq}
use text.Mathlib.TextEquality.{eq_iff}
use go_ptor.Common.{◌≡◌, List, [], ◌∷◌, arith, if◌then◌else◌, String}
use go_ptor.Common.Result.{Result, ok, err, not_found}
use go_ptor.Value.Relay.{RelayId}

-- The service's public key, which the client does not use, is left out.
pub record HiddenService : Type 0 where
  pub address : String
  pub relay_id : RelayId

unfoldable pub update_relay : RelayId → HiddenService → HiddenService
update_relay relay_id hs = record hs { relay_id = relay_id }

module _ (to_lower : String → String) where
  unfoldable pub find_by_address_string : String → List HiddenService → Result HiddenService
  find_by_address_string address [] = err not_found
  find_by_address_string address (hs ∷ s) =
      if str_eq (to_lower hs.address) (to_lower address)
      then ok hs
      else find_by_address_string address s

  -- Save; it never fails. The first entry with the address is replaced.
  unfoldable pub save : HiddenService → List HiddenService → List HiddenService
  save hidden [] = hidden ∷ []
  save hidden (hs ∷ s) =
      let rest = save hidden s in
      if str_eq (to_lower hs.address) (to_lower hidden.address) then hidden ∷ s else hs ∷ rest

  -- After a Save of a hidden service, FindByAddressString returns it at every address that has the
  -- same lower-case form, and at any other address what it returned before.
  pub find_by_address_string-save :
      (hidden : HiddenService) (address : String) (s : List HiddenService)
      → find_by_address_string address (save hidden s) ≡ (
          if str_eq (to_lower hidden.address) (to_lower address)
          then ok hidden
          else find_by_address_string address s)
  unfolding find_by_address_string save
  find_by_address_string-save hidden address [] = ground arith
  find_by_address_string-save hidden address (hs ∷ s) = ground (
    arith,
    eq_iff (to_lower hs.address) (to_lower hidden.address),
    eq_iff (to_lower hs.address) (to_lower address),
    eq_iff (to_lower hidden.address) (to_lower address),
    find_by_address_string-save hidden address s,
  )
