-- ===== src/Client/Directory/Laws.antt =====
-- What the relay repository answers after a Save.
use go_ptor.Common.{suc, ◌≡◌, ◌≢◌, refl, true, List, [], ◌∷◌, ◌++◌, arith, length, All, ite, subst}
use go_ptor.Common.Result.{ok}
use go_ptor.Value.Relay.{RelayId}
use go_ptor.Client.Directory.{
  RelayId-discrete, Relay, replace_each, save, find_by_id, online_of, or_not_found, all_online,
}

find_by_id-append :
    (rel : Relay) (s : List Relay) → find_by_id rel.id (replace_each rel s ++ (rel ∷ [])) ≡ ok rel
unfolding find_by_id replace_each
find_by_id-append rel [] = ground arith
find_by_id-append rel (r ∷ rs) = ground (arith, find_by_id-append rel rs)

find_by_id-append_ne :
    (rel : Relay) (id : RelayId) (s : List Relay)
    → rel.id ≢ id
    → find_by_id id (replace_each rel s ++ (rel ∷ [])) ≡ find_by_id id s
unfolding find_by_id replace_each
find_by_id-append_ne rel id [] ne = ground arith
find_by_id-append_ne rel id (r ∷ rs) ne = ground (arith, find_by_id-append_ne rel id rs ne)

-- After a Save, FindByID returns the saved relay at its identifier and at any other identifier
-- what it returned before.
pub find_by_id-save :
    (rel : Relay) (id : RelayId) (s : List Relay)
    → find_by_id id (save rel s) ≡ ite (RelayId-discrete rel.id id) (ok rel) (find_by_id id s)
unfolding save
find_by_id-save rel id s = elim (RelayId-discrete rel.id id) [
  | yes y ↦ ground (arith, y, find_by_id-append rel s)
  | no n ↦ ground (arith, n, find_by_id-append_ne rel id s n)
]

length-replace_each :
    (rel : Relay) (s : List Relay) → length (replace_each rel s ++ (rel ∷ [])) ≡ suc (length s)
unfolding replace_each
length-replace_each rel [] = refl
length-replace_each rel (r ∷ rs) = ground (arith, length-replace_each rel rs)

-- A Save makes the list of relays one entry longer, also when it updates a relay that was there.
pub length-save : (rel : Relay) (s : List Relay) → length (save rel s) ≡ suc (length s)
unfolding save
length-save rel s = length-replace_each rel s

abbrev pub IsOnline : Relay → Type 0
IsOnline r = r.online ≡ true

pub online_of-All : (s : List Relay) → All IsOnline (online_of s)
unfolding online_of
online_of-All [] = ground arith
online_of-All (r ∷ rs) = ground (arith, online_of-All rs)

or_not_found-ok : (l : List Relay) {out : List Relay} → or_not_found l ≡ ok out → l ≡ out
unfolding or_not_found
or_not_found-ok [] e = absurd (cc e)
or_not_found-ok (r ∷ rs) e = cc e

-- AllOnline returns only relays that are online.
pub all_online-All : (s : List Relay) {out : List Relay} → all_online s ≡ ok out → All IsOnline out
unfolding all_online
all_online-All s e = subst (All IsOnline) (or_not_found-ok (online_of s) e) (online_of-All s)
