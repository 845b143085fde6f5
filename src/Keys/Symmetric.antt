-- ===== src/Keys/Symmetric.antt =====
-- aes_key.go and nonce.go of shared/domain/value_object: constructors that draw and that check.
use go_ptor.Common.{not, ◌==◌, if◌then◌else◌, length, ◌∷◌}
use go_ptor.Common.Result.{Result, ok, err, bad_length, rand_failed}
use go_ptor.Common.Exec.{Exec}
use go_ptor.Cell.{Bytes}
use go_ptor.Crypto.{Key}
use go_ptor.Crypto.Exchange.{or_fail}
use go_ptor.Nonce.{Nonce}
use go_ptor.Net.{Env, History, drew}

-- NewAESKey and NewNonce; a caller does not use what comes beside an error.
unfoldable pub new_aes_key : Env → Exec History Key
unfolding or_fail
new_aes_key env h = (or_fail rand_failed (env.rand h 32), drew ∷ h)

unfoldable pub new_nonce : Env → Exec History Nonce
unfolding or_fail
new_nonce env h = (or_fail rand_failed (env.rand h 12), drew ∷ h)

-- AESKeyFrom and NonceFrom
unfoldable pub aes_key_from : Bytes → Result Key
aes_key_from b = if not (length b == 32) then err bad_length else ok b

unfoldable pub nonce_from : Bytes → Result Nonce
nonce_from b = if not (length b == 12) then err bad_length else ok b
