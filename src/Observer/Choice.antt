-- ===== src/Observer/Choice.antt =====
-- The choices of internal/domain/observer_commands.go are the ones its comments promise.
use omenpath_research_lab.Base.{
  ℕ, ◌≤◌, ◌<◌, ◌≡◌, ◌⊎◌, inl, inr, refl, List, Option, none, some, arith, Bool-cases, ltb, subst,
  is_some, [], ◌∷◌, ◌++◌, length, All, get_elem?, All-append, true, sym, true,
}
use omenpath_research_lab.Errors.{ok}
use omenpath_research_lab.Scan.{
  scan-Best, Picks, skips, takes, keeps, Best, pick-Best, scan_inv, get_elem?-append_left,
  get_elem?-append_last, get_elem?-snoc, All-get,
}
use omenpath_research_lab.Observer.{Observer, available, waiting_return, outbound, returning}
use omenpath_research_lab.Observer.Selection.{
  has_status, since, available_round, available_observer_index, waiting_round,
  longest_waiting_observer_index, transit_round, active_transit_observer_index,
}
use omenpath_research_lab.Observer.Roster.{runs_at}

abbrev pub IsAvailable : Observer → Type 0
IsAvailable o = o.status ≡ available

available_round-Picks :
    (sel : Option (ℕ × Observer)) (i : ℕ) (o : Observer)
    → Picks IsAvailable (λ a b. a.id ≤ b.id) sel i o (available_round sel i o)
unfolding available_round
available_round-Picks none i o = elim (Bool-cases (has_status o available)) [
  | inr other ↦ rw other (skips (λ a. ground arith))
  | inl free ↦ rw free (takes (ground arith) (λ j b e. cc))
]
available_round-Picks (some (j, b)) i o = elim (Bool-cases (has_status o available)) [
  | inr other ↦ rw other (skips (λ a. ground arith))
  | inl free ↦ rw free (elim (Bool-cases (ltb o.id b.id)) [
    | inl less ↦ rw less (takes (ground arith) (λ k c e. ground arith))
    | inr more ↦ rw more (keeps j b refl (ground arith))
  ])
]

-- The chosen observer is available and has the lowest ID among the available; there is none only if
-- none is available.
pub available_observer_index-Best :
    (observers : List Observer)
    → Best IsAvailable (λ a b. a.id ≤ b.id) observers (available_observer_index observers)
unfolding available_observer_index
available_observer_index-Best observers =
    pick-Best IsAvailable (λ a b. a.id ≤ b.id) (λ a. omega arith) (λ a b c p q. omega arith)
      available_round available_round-Picks observers

abbrev pub IsWaitingIn : ℕ → Observer → Type 0
IsWaitingIn plane_id o = (o.status ≡ waiting_return) × (o.current_plane_id ≡ some plane_id)

-- Has waited longer, or as long with no higher ID.
abbrev pub WaitsBefore : Observer → Observer → Type 0
WaitsBefore a b =
    (since a.phase_started_at < since b.phase_started_at)
    ⊎ (since a.phase_started_at ≡ since b.phase_started_at) × (a.id ≤ b.id)

waiting_round_first :
    (plane_id i : ℕ) (o : Observer) (sel' : Option (ℕ × Observer))
    → waiting_round plane_id none i o ≡ ok sel'
    → (none ≡ sel') × ¬ IsWaitingIn plane_id o ⊎ (some (i, o) ≡ sel') × IsWaitingIn plane_id o
unfolding waiting_round
waiting_round_first plane_id i o sel' h = ground arith

waiting_round_next :
    (plane_id i : ℕ) (o : Observer) (j : ℕ) (b : Observer) (sel' : Option (ℕ × Observer))
    → waiting_round plane_id (some (j, b)) i o ≡ ok sel'
    → (some (j, b) ≡ sel') × ¬ IsWaitingIn plane_id o
      ⊎ (some (i, o) ≡ sel') × IsWaitingIn plane_id o × WaitsBefore o b
      ⊎ (some (j, b) ≡ sel') × WaitsBefore b o
unfolding waiting_round
waiting_round_next plane_id i o j b sel' h = ground arith

waiting_round-Picks :
    (plane_id : ℕ) (sel : Option (ℕ × Observer)) (i : ℕ) (o : Observer)
    (sel' : Option (ℕ × Observer))
    → waiting_round plane_id sel i o ≡ ok sel'
    → Picks (IsWaitingIn plane_id) WaitsBefore sel i o sel'
waiting_round-Picks plane_id none i o sel' h = elim (waiting_round_first plane_id i o sel' h) [
  | inl (e, other) ↦ subst (Picks (IsWaitingIn plane_id) WaitsBefore none i o) e (skips other)
  | inr (e, waits) ↦
      subst (Picks (IsWaitingIn plane_id) WaitsBefore none i o) e (takes waits (λ j b f. cc))
]
waiting_round-Picks plane_id (some (j, b)) i o sel' h =
    elim (waiting_round_next plane_id i o j b sel' h) [
      | inl (e, other) ↦
          subst (Picks (IsWaitingIn plane_id) WaitsBefore (some (j, b)) i o) e (skips other)
      | inr (inl (e, waits, first)) ↦
          subst (Picks (IsWaitingIn plane_id) WaitsBefore (some (j, b)) i o) e
            (takes waits (λ k c f. ground arith))
      | inr (inr (e, first)) ↦
          subst (Picks (IsWaitingIn plane_id) WaitsBefore (some (j, b)) i o) e
            (keeps j b refl first)
    ]

-- The chosen observer waits in the plane, and none there has waited longer, or as long with a lower
-- ID; there is none only if none waits there.
pub longest_waiting_observer_index-Best :
    (observers : List Observer) (plane_id : ℕ) (r : Option (ℕ × Observer))
    → longest_waiting_observer_index observers plane_id ≡ ok r
    → Best (IsWaitingIn plane_id) WaitsBefore observers r
unfolding longest_waiting_observer_index
longest_waiting_observer_index-Best observers plane_id r h =
    scan-Best (IsWaitingIn plane_id) WaitsBefore (λ a. omega arith) (λ a b c p q. omega arith)
      (waiting_round plane_id) (waiting_round-Picks plane_id) observers r h

-- On the way through the portal, with the end of the transit still to come.
abbrev pub InCorridor : ℕ → ℕ → Observer → Type 0
InCorridor portal_id now o =
    ((o.status ≡ outbound) × (o.current_plane_id ≡ none)
      ⊎ (o.status ≡ returning) × (is_some o.current_plane_id ≡ true))
    × (o.active_portal_id ≡ some portal_id)
    × (runs_at o.phase_started_at o.phase_ends_at now ≡ true)

transit_round_first :
    (portal_id now i : ℕ) (o : Observer) (sel' : Option (ℕ × Observer))
    → transit_round portal_id now none i o ≡ ok sel'
    → (none ≡ sel') × ¬ InCorridor portal_id now o
      ⊎ (some (i, o) ≡ sel') × InCorridor portal_id now o
unfolding transit_round
transit_round_first portal_id now i o sel' h = ground arith

-- A second observer in the corridor is refused.
transit_round_next :
    (portal_id now i : ℕ) (o : Observer) (b : ℕ × Observer) (sel' : Option (ℕ × Observer))
    → transit_round portal_id now (some b) i o ≡ ok sel'
    → (some b ≡ sel') × ¬ InCorridor portal_id now o
unfolding transit_round
transit_round_next portal_id now i o b sel' h = ground arith

-- Nobody in the corridor, or the observer at one index alone.
abbrev pub Occupied : ℕ → ℕ → List Observer → Option (ℕ × Observer) → Type 0
Occupied portal_id now seen none = All (λ x. ¬ InCorridor portal_id now x) seen
Occupied portal_id now seen (some (i, o)) =
    (get_elem? seen i ≡ some o)
    × InCorridor portal_id now o
    × ((j : ℕ) (x : Observer) → get_elem? seen j ≡ some x → InCorridor portal_id now x → j ≡ i)

Occupied-step :
    (portal_id now : ℕ) (seen : List Observer) (sel sel' : Option (ℕ × Observer)) (x : Observer)
    → Occupied portal_id now seen sel
    → transit_round portal_id now sel (length seen) x ≡ ok sel'
    → Occupied portal_id now (seen ++ x ∷ []) sel'
Occupied-step portal_id now seen none sel' x h e =
    elim (transit_round_first portal_id now (length seen) x sel' e) [
      | inl (same, out) ↦
          subst (Occupied portal_id now (seen ++ x ∷ [])) same
            (All-append _ seen (x ∷ []) h (out, tt))
      | inr (same, inside) ↦ subst (Occupied portal_id now (seen ++ x ∷ [])) same (
        get_elem?-append_last seen x,
        inside,
        λ j y at busy. elim (get_elem?-snoc seen x j y at) [
          | inl old ↦ absurd (All-get _ seen j y h old busy)
          | inr (last, _) ↦ last
        ],
      )
    ]
Occupied-step portal_id now seen (some (i, o)) sel' x h e =
    let (same, out) = transit_round_next portal_id now (length seen) x (i, o) sel' e in
    subst (Occupied portal_id now (seen ++ x ∷ [])) same (
      get_elem?-append_left seen (x ∷ []) i h.0,
      h.1,
      λ j y at busy. elim (get_elem?-snoc seen x j y at) [
        | inl old ↦ h.2 j y old busy
        | inr (_, eq) ↦ absurd (out (subst (InCorridor portal_id now) (sym eq) busy))
      ],
    )

-- The observer that is found is in the corridor, and nobody else is; if none is found, nobody is.
pub active_transit_observer_index-Occupied :
    (observers : List Observer) (portal_id now : ℕ) (r : Option (ℕ × Observer))
    → active_transit_observer_index observers portal_id now ≡ ok r
    → Occupied portal_id now observers r
unfolding active_transit_observer_index
active_transit_observer_index-Occupied observers portal_id now r h =
    scan_inv (Occupied portal_id now) (transit_round portal_id now) (Occupied-step portal_id now) []
      observers none r tt h
