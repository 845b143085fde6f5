-- ===== src/Client/Use/Build/Path.antt =====
-- Which relays build_circuit_usecase.go chooses.
use go_ptor.Common.{
  ◌⊎◌, ℕ, ◌-◌, ◌≡◌, ◌≢◌, ◌≤◌, refl, ap, sym, ◌∙◌, subst, inl, inr, arith, List, [], ◌∷◌, ◌++◌,
  length, All, All-append, Option, none, some, Option-cases, Bool-cases, take, length-take,
  length-append, All-take, ltb, ◌==◌, if◌then◌else◌,
}
use go_ptor.Common.Result.{Result, ok, err, panic}
use go_ptor.Common.Exec.{lift, continue, continue-ok}
use go_ptor.Net.{History}
use go_ptor.Client.Use.Build.Shuffle.{secure_shuffle-All}
use go_ptor.Client.Use.Build.{
  secure_shuffle, take_out, with_exit, online_exit, exit_and_pool, select, chosen, choose,
}
use go_ptor.Client.Directory.{Relay, RelayId-discrete, find_by_id, all_online}
use go_ptor.Client.Directory.Laws.{IsOnline, all_online-All}
use go_ptor.Client.World.{Services}
use go_ptor.Value.Relay.{RelayId, zero_relay_id}

abbrev taken : Relay → List Relay → Option (Relay × List Relay)
taken e others = some (e, others)

take_out-ok :
    (id : RelayId) (rs : List Relay) (e : Relay) (others : List Relay)
    → All IsOnline rs
    → take_out id rs ≡ taken e others
    → (e.id ≡ id) × IsOnline e × All IsOnline others
unfolding take_out
take_out-ok id [] e others h eq = absurd (cc eq)
take_out-ok id (r ∷ rs) e others h eq = elim (RelayId-discrete r.id id) [
  | yes same ↦
      let shape : taken r rs ≡ taken e others = ground (arith, eq, same) in
      let first : r ≡ e = cc shape in
      let rest : rs ≡ others = cc shape in
      (
        ap (λ (x : Relay). x.id) (sym first) ∙ same,
        subst IsOnline first h.0,
        subst (All IsOnline) rest h.1,
      )
  | no ne ↦ elim (Option-cases (take_out id rs)) [
    | inl missing ↦ absurd (ground (arith, eq, ne, missing))
    | inr ((e', others'), found) ↦
        let shape : taken e' (r ∷ others') ≡ taken e others = ground (arith, eq, ne, found) in
        let first : e' ≡ e = cc shape in
        let rest : r ∷ others' ≡ others = cc shape in
        let (named, online, all) = take_out-ok id rs e' others' h.1 found in
        (
          ap (λ (x : Relay). x.id) (sym first) ∙ named,
          subst IsOnline first online,
          subst (All IsOnline) rest (h.0, all),
        )
  ]
]

-- The exit relay is the one asked for, and the others to choose from are online.
abbrev ExitFits : RelayId → List Relay → Option Relay → List Relay → Type 0
ExitFits exit relays none pool = (exit ≡ zero_relay_id) × (pool ≡ relays)
ExitFits exit relays (some e) pool = (e.id ≡ exit) × IsOnline e × All IsOnline pool

abbrev parts : Option Relay → List Relay → Result (Option Relay × List Relay)
parts e pool = ok (e, pool)

with_exit-ok :
    (hops : ℕ) (exit : RelayId) (relays : List Relay) (o : Option (Relay × List Relay))
    (e : Option Relay) (pool : List Relay)
    → ((x : Relay) (others : List Relay)
        → o ≡ taken x others
        → (x.id ≡ exit) × IsOnline x × All IsOnline others)
    → with_exit hops o ≡ parts e pool
    → ExitFits exit relays e pool
unfolding with_exit
with_exit-ok hops exit relays none e pool good eq = absurd (cc eq)
with_exit-ok hops exit relays (some (x, others)) e pool good eq =
    let (named, online, all) = good x others refl in
    let kept : All IsOnline (if hops == 1 then [] else others) = elim (Bool-cases (hops == 1)) [
      | inl y ↦ rw y tt
      | inr n ↦ rw n all
    ] in
    let same_exit : some x ≡ e = cc eq in
    let same_pool : (if hops == 1 then [] else others) ≡ pool = cc eq in
    subst (λ o. ExitFits exit relays o pool) same_exit
      (named, online, subst (All IsOnline) same_pool kept)

online_exit-ok :
    (hops : ℕ) (exit : RelayId) (relays : List Relay) (r : Result Relay) (e : Option Relay)
    (pool : List Relay)
    → All IsOnline relays
    → online_exit exit hops relays r ≡ parts e pool
    → ExitFits exit relays e pool
unfolding online_exit
online_exit-ok hops exit relays (err x) e pool all eq = absurd (cc eq)
online_exit-ok hops exit relays panic e pool all eq = absurd (cc eq)
online_exit-ok hops exit relays (ok r) e pool all eq = elim (Bool-cases r.online) [
  | inl y ↦
      with_exit-ok hops exit relays (take_out exit relays) e pool
        (λ x others found. take_out-ok exit relays x others all found) (ground (arith, eq, y))
  | inr n ↦ absurd (ground (arith, eq, n))
]

exit_and_pool-ok :
    (known : List Relay) (hops : ℕ) (exit : RelayId) (relays : List Relay) (e : Option Relay)
    (pool : List Relay)
    → All IsOnline relays
    → exit_and_pool known hops exit relays ≡ parts e pool
    → ExitFits exit relays e pool
unfolding exit_and_pool
exit_and_pool-ok known hops exit relays e pool all eq = elim (RelayId-discrete exit zero_relay_id) [
  | yes z ↦
      let shape : parts none relays ≡ parts e pool = ground (arith, eq, z) in
      let same_exit : none ≡ e = cc shape in
      let same_pool : relays ≡ pool = cc shape in
      subst (λ o. ExitFits exit relays o pool) same_exit (z, sym same_pool)
  | no nz ↦
      online_exit-ok hops exit relays (find_by_id exit known) e pool all (ground (arith, eq, nz))
]

-- A selection that succeeds has as many relays as hops, when there are hops.
length-select :
    (hops : ℕ) (e : Option Relay) (rs : List Relay) {out : List Relay}
    → hops ≢ 0
    → (e ≡ none → hops ≤ length rs)
    → select hops e rs ≡ ok out
    → length out ≡ hops
unfolding select
length-select hops none rs ne enough eq =
    let shape : take hops rs ≡ _ = cc eq in
    ap length (sym shape) ∙ length-take hops rs (enough refl)
length-select hops (some e) rs ne enough eq =
    ground (arith, length-take (hops - 1) rs, length-append (take (hops - 1) rs) (e ∷ []))

pool_of :
    (exit : RelayId) (relays : List Relay) (e : Option Relay) (pool : List Relay)
    → ExitFits exit relays e pool
    → e ≡ none
    → pool ≡ relays
pool_of exit relays none pool fits eq = fits.1
pool_of exit relays (some e) pool fits eq = absurd (cc eq)

All-Unit : (rs : List Relay) → All (λ r. Unit {0}) rs
All-Unit [] = tt
All-Unit (r ∷ rs) = (tt, All-Unit rs)

-- The last relay of the selection.
abbrev pub EndsIn : RelayId → List Relay → Type 0
EndsIn exit out = (front : List Relay) × (e : Relay) × (out ≡ front ++ (e ∷ [])) × (e.id ≡ exit)

select-ok :
    (hops : ℕ) (exit : RelayId) (relays : List Relay) (e : Option Relay) (pool ys : List Relay)
    {out : List Relay}
    → ExitFits exit relays e pool
    → All IsOnline relays
    → hops ≤ length relays
    → (All IsOnline pool → All IsOnline ys)
    → length ys ≡ length pool
    → select hops e ys ≡ ok out
    → All IsOnline out × ((exit ≡ zero_relay_id) ⊎ EndsIn exit out)
unfolding select
select-ok hops exit relays none pool ys {out} fits all enough keeps size eq =
    let shape : take hops ys ≡ out = cc eq in
    (
      subst (All IsOnline) shape
          (All-take IsOnline hops ys (keeps (subst (All IsOnline) (sym fits.1) all))),
      inl fits.0,
    )
select-ok hops exit relays (some e) pool ys {out} fits all enough keeps size eq =
    let shape : take (hops - 1) ys ++ (e ∷ []) ≡ out = ground (arith, eq) in
    (
      subst (All IsOnline) shape
          (All-append IsOnline _ _ (All-take IsOnline (hops - 1) ys (keeps fits.2)) (fits.1, tt)),
      inr (take (hops - 1) ys, e, sym shape, fits.0),
    )

chosen-ok :
    (v : Services) (hops : ℕ) (exit : RelayId) (relays : List Relay) (e : Option Relay)
    (pool : List Relay) (h : History) {out : List Relay} {h' : History}
    → ExitFits exit relays e pool
    → All IsOnline relays
    → hops ≢ 0
    → hops ≤ length relays
    → chosen v hops (e, pool) h ≡ (ok out, h')
    → (length out ≡ hops) × All IsOnline out × ((exit ≡ zero_relay_id) ⊎ EndsIn exit out)
unfolding chosen
chosen-ok v hops exit relays e pool h fits all ne enough eq =
    let run = secure_shuffle v.env pool h in
    let (ys, shuffled, eq') = continue-ok run.0 (λ ys. lift (select hops e ys)) run.1 eq in
    let shape : secure_shuffle v.env pool h ≡ (ok ys, run.1) =
      ap (λ (r : Result (List Relay)). (r, run.1)) shuffled in
    let selected : select hops e ys ≡ ok _ = ap (λ (r : Result (List Relay) × History). r.0) eq' in
    let size = (secure_shuffle-All (λ r. Unit {0}) v.env pool h (All-Unit pool) shape).1 in
    let (online, ends) =
      select-ok hops exit relays e pool ys fits all enough
        (λ p. (secure_shuffle-All IsOnline v.env pool h p shape).0) size selected in
    (
      length-select hops e ys ne
          (λ none_e.
            omega (arith, enough, size, ap length (pool_of exit relays e pool fits none_e)))
          selected,
      online,
      ends,
    )

-- A choice of at least one hop that succeeds has that many relays, all of them online, and ends in
-- the exit relay when one was asked for.
pub choose-ok :
    (v : Services) (known : List Relay) (hops : ℕ) (exit : RelayId) (h : History) {out : List Relay}
    {h' : History}
    → hops ≢ 0
    → choose v known hops exit h ≡ (ok out, h')
    → (length out ≡ hops) × All IsOnline out × ((exit ≡ zero_relay_id) ⊎ EndsIn exit out)
unfolding choose
choose-ok v known hops exit h {out} {h'} ne e =
    let (relays, listed, e₁) = continue-ok (all_online known) _ h e in
    let all : All IsOnline relays = all_online-All known listed in
    elim (Bool-cases (ltb (length relays) hops)) [
      | inl few ↦ absurd (ground (arith, few, e₁))
      | inr enough ↦
          let e₂ : continue (exit_and_pool known hops exit relays) (chosen v hops) h
              ≡ (ok out, h') =
            ground (arith, e₁, enough) in
          let (ps, split, e₃) =
            continue-ok (exit_and_pool known hops exit relays) (chosen v hops) h e₂ in
          chosen-ok v hops exit relays ps.0 ps.1 h
            (exit_and_pool-ok known hops exit relays ps.0 ps.1 all split) all ne
            (ground (arith, enough)) e₃
    ]
