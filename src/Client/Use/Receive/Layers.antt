-- ===== src/Client/Use/Receive/Layers.antt =====
-- What decrypt_cell_data_usecase.go does with data that the relays of a circuit have sealed.
use go_ptor.Common.{ℕ, zero, suc, ◌≡◌, refl, ap, ap₂, sym, ◌∙◌, subst, arith, ◌∷◌, All, length}
use go_ptor.Common.Result.{Result, ok, ◌>>=◌}
use go_ptor.Cell.{Bytes}
use go_ptor.Crypto.{IsAead, aes_seal, seal_loop, aes_multi_seal}
use go_ptor.Crypto.Onion.{IsKey, aes_seal_lem, aes_open-seal}
use go_ptor.Client.Circuit.{Circuit, hop_key, hop_upstream_data_nonce, hop_upstream_data_nonce_peek}
use go_ptor.Client.Circuit.Hops.{peeks, peeks-next, upstream-IsPerHop}
use go_ptor.Client.Use.Send.{hop_keys, hop_nonces}
use go_ptor.Client.Use.Send.Onion.{length-hop_keys, length-peeks}
use go_ptor.Client.World.{Services}
use go_ptor.Client.Use.Receive.{decrypt_layers, decrypt_onion_layers}

hop_keys-upstream :
    (n i j : ℕ) (c : Circuit) → hop_keys n j (hop_upstream_data_nonce i c).1 ≡ hop_keys n j c
unfolding hop_keys hop_key hop_upstream_data_nonce
hop_keys-upstream zero i j c = refl
hop_keys-upstream (suc n) i j c = ap (λ ks. hop_key j c ∷ ks) (hop_keys-upstream n i (suc j) c)

module _ (v : Services) (laws : IsAead v.aead) where
  open v use {env, aead, gob}

  layers :
      (n i : ℕ) (c : Circuit) (p : Bytes)
      → All IsKey (hop_keys n i c)
      → (enc : Bytes) × (seal_loop aead
            (hop_keys n i c)
            (peeks hop_upstream_data_nonce_peek n i c)
            p
          ≡ ok enc)
        × (decrypt_layers v n i enc c ≡ (ok p, (hop_nonces hop_upstream_data_nonce n i c).1))
  unfolding seal_loop hop_keys decrypt_layers hop_nonces hop_upstream_data_nonce
  layers zero i c p keys = (p, refl, refl)
  layers (suc n) i c p keys =
      let c₁ = (hop_upstream_data_nonce i c).1 in
      let same = hop_keys-upstream n i (suc i) c in
      let (d, sealed, unsealed) = layers n (suc i) c₁ p (subst (All IsKey) (sym same) keys.1) in
      let key = hop_key i c in
      let nonce = hop_upstream_data_nonce_peek i c in
      let inner : seal_loop aead (hop_keys n (suc i) c)
            (peeks hop_upstream_data_nonce_peek n (suc i) c) p
          ≡ ok d =
        ap₂ (λ ks ns. seal_loop aead ks ns p) (sym same)
          (sym (peeks-next _ _ upstream-IsPerHop n i (suc i) c (omega arith)))
        ∙ sealed in
      (
        aead.gcm_seal key nonce d,
        ap (λ (r : Result Bytes). r >>= λ out. aes_seal aead key nonce out) inner
            ∙ aes_seal_lem aead laws key nonce d keys.0,
        rw (aes_open-seal aead laws key nonce d keys.0) unsealed,
      )

  -- Data that all hops sealed with 32-byte keys and their next upstream nonces is opened
  -- completely by the client, which takes every hop's upstream nonce once.
  pub decrypt_onion_layers-aes_multi_seal :
      (c : Circuit) (p : Bytes)
      → All IsKey (hop_keys (length c.hops) 0 c)
      → (enc : Bytes) × (aes_multi_seal aead
            (hop_keys (length c.hops) 0 c)
            (peeks hop_upstream_data_nonce_peek (length c.hops) 0 c)
            p
          ≡ ok enc)
        × (decrypt_onion_layers v enc c
            ≡ (ok p, (hop_nonces hop_upstream_data_nonce (length c.hops) 0 c).1))
  unfolding aes_multi_seal decrypt_onion_layers
  decrypt_onion_layers-aes_multi_seal c p keys =
      let (enc, sealed, unsealed) = layers (length c.hops) 0 c p keys in
      (
        enc,
        ground (
          arith,
          length-hop_keys (length c.hops) 0 c,
          length-peeks hop_upstream_data_nonce_peek (length c.hops) 0 c,
        ),
        unsealed,
      )
