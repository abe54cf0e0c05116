-- ===== src/Commands/Effects.antt =====
-- What SEND of internal/domain/observer_commands.go does to the aggregate.
use omenpath_research_lab.Base.{
  All, ℕ, zero, suc, ◌+◌, ◌*◌, ◌/◌, ◌≤◌, ◌<◌, ◌≡◌, ◌≢◌, ◌⊎◌, inl, inr, refl, sym, ap, subst, ◌∙◌,
  List, [], ◌∷◌, Option, none, some, Bool, true, arith, set, get_elem?, some_injective,
}
use omenpath_research_lab.Errors.{Error, ok, err, Result-cases}
use omenpath_research_lab.Float64.{Float64}
use omenpath_research_lab.Random.{Random, IsInclusive}
use omenpath_research_lab.Config.{Config, second}
use omenpath_research_lab.Plane.{Plane}
use omenpath_research_lab.Portal.{Portal, PortalFlow, flow_outbound, flow_inbound}
use omenpath_research_lab.Scan.{scan, Best}
use omenpath_research_lab.Observer.{Observer, available, outbound}
use omenpath_research_lab.Observer.Lifecycle.{start_outbound, transit_seconds}
use omenpath_research_lab.Observer.Selection.{transit_round, active_transit_observer_index}
use omenpath_research_lab.Observer.Choice.{available_observer_index-Best, IsAvailable}
use omenpath_research_lab.Observer.Roster.{
  roster_loop, valid_phase, validate_observer_roster, valid_active_transit,
}
use omenpath_research_lab.Commands.{fix_flow, admit_send, send_observer}
use omenpath_research_lab.Commands.Admission.{Sendable, admit_send-ok}

-- One observer is replaced by one of its ID whose phase is valid: the roster stays valid.
roster_loop-set :
    (ids : List ℕ) (os : List Observer) (now i : ℕ) (o o' : Observer)
    → get_elem? os i ≡ some o
    → o'.id ≡ o.id
    → valid_phase o'.status o' now ≡ true
    → roster_loop ids os now ≡ ok tt
    → roster_loop ids (set os i o') now ≡ ok tt
unfolding roster_loop
roster_loop-set ids [] now i o o' g e v h = cc
roster_loop-set ids (x ∷ os) now zero o o' g e v h =
    let same : o'.id ≡ x.id = e ∙ ap (λ (y : Observer). y.id) (sym (some_injective g)) in
    rw (v, same) (ground arith)
roster_loop-set ids (x ∷ os) now (suc i) o o' g e v h =
    ground (arith, roster_loop-set (x.id ∷ ids) os now i o o')

module _ (portal_id now : ℕ) where
  round_skips :
      (x : Observer) (i : ℕ) (sel : Option (ℕ × Observer)) (j : ℕ)
      → transit_round portal_id now none i x ≡ ok none
      → transit_round portal_id now sel j x ≡ ok sel
  unfolding transit_round
  round_skips x i sel j h = ground arith

  round_cases :
      (x : Observer) (i : ℕ) (sel r : Option (ℕ × Observer))
      → transit_round portal_id now sel i x ≡ ok r
      → (r ≡ sel) ⊎ (r ≡ some (i, x))
  unfolding transit_round
  round_cases x i sel r h = ground arith

  scan-some :
      (k : ℕ) (os : List Observer) (s : ℕ × Observer)
      → scan (transit_round portal_id now) (some s) k os ≢ ok none
  unfolding scan
  scan-some k [] s h = cc
  scan-some k (x ∷ os) s h = elim (Result-cases (transit_round portal_id now (some s) k x)) [
    | inr (e, f) ↦ absurd (ground arith)
    | inl (r, f) ↦ elim (round_cases x k (some s) r f) [
      | inl g ↦ scan-some (suc k) os s (ground arith)
      | inr g ↦ scan-some (suc k) os (k, x) (ground arith)
    ]
  ]

  scan-none :
      (k : ℕ) (x : Observer) (os : List Observer)
      → scan (transit_round portal_id now) none k (x ∷ os) ≡ ok none
      → (transit_round portal_id now none k x ≡ ok none)
        × (scan (transit_round portal_id now) none (suc k) os ≡ ok none)
  unfolding scan
  scan-none k x os h = elim (Result-cases (transit_round portal_id now none k x)) [
    | inr (e, f) ↦ absurd (ground arith)
    | inl (r, f) ↦ elim (round_cases x k none r f) [
      | inl g ↦ (ground arith, ground arith)
      | inr g ↦ absurd (scan-some (suc k) os (k, x) (ground arith))
    ]
  ]

  scan_skips :
      (k j : ℕ) (os : List Observer) (sel : Option (ℕ × Observer))
      → scan (transit_round portal_id now) none k os ≡ ok none
      → scan (transit_round portal_id now) sel j os ≡ ok sel
  unfolding scan
  scan_skips k j [] sel h = refl
  scan_skips k j (x ∷ os) sel h =
      let (here, rest) = scan-none k x os h in
      rw (round_skips x k sel j here) (scan_skips (suc k) (suc j) os sel rest)

  -- In a slice in which no one is in the corridor, one element is replaced by one that is.
  scan-set :
      (i k : ℕ) (os : List Observer) (o o' : Observer)
      → get_elem? os i ≡ some o
      → ((j : ℕ) → transit_round portal_id now none j o' ≡ ok (some (j, o')))
      → scan (transit_round portal_id now) none k os ≡ ok none
      → scan (transit_round portal_id now) none k (set os i o') ≡ ok (some (i + k, o'))
  unfolding scan
  scan-set i k [] o o' g r h = cc
  scan-set zero k (x ∷ os) o o' g r h =
      let (here, rest) = scan-none k x os h in
      rw (r k) (
        scan_skips (suc k) (suc k) os (some (k, o')) rest
        ∙ ap (λ n. ok (some (n, o'))) (omega arith))
  scan-set (suc i) k (x ∷ os) o o' g r h =
      let (here, rest) = scan-none k x os h in
      rw here (scan-set i (suc k) os o o' g r rest ∙ ap (λ n. ok (some (n, o'))) (omega arith))

-- An observer on its way out through the portal since `now`.
unfoldable pub departed : Observer → ℕ → ℕ → ℕ → Observer
departed o now portal_id duration_seconds = record o {
  status = outbound;
  current_plane_id = none;
  active_portal_id = some portal_id;
  phase_started_at = some now;
  phase_ends_at = some (now + duration_seconds * second);
  updated_at = now;
}

module _ {F R : Type 0} (fl : Float64 F) (rn : Random F R) (cfg : Config F) (portal : Portal F)
    (plane : Plane) (observers : List Observer) (now : ℕ) (confirm : Bool) (r : R) where
  send-admitted :
      (i : ℕ) (o : Observer)
      → admit_send fl portal plane observers now confirm cfg ≡ ok (i, o)
      → (get_elem? observers i ≡ some o)
        × (o.status ≡ available)
        × All (λ b. b.status ≡ available → o.id ≤ b.id) observers
  send-admitted i o h =
      let best =
        subst (λ (c : Option (ℕ × Observer)). Best IsAvailable (λ a b. a.id ≤ b.id) observers c)
          ((admit_send-ok fl cfg portal observers now confirm plane (i, o)).0 h).first
          (available_observer_index-Best observers) in
      best

  pub send_observer_lem :
      (i : ℕ) (o : Observer)
      → admit_send fl portal plane observers now confirm cfg ≡ ok (i, o)
      → let (duration_seconds, r') = transit_seconds rn r cfg in
        send_observer fl rn portal plane observers now confirm r cfg ≡ (
          fix_flow portal.observer_flow flow_outbound portal now,
          set observers i (departed o now portal.id duration_seconds),
          r',
          ok o.id,
        )
  unfolding send_observer start_outbound departed
  send_observer_lem i o h =
      let (at, free, _) = send-admitted i o h in rw (h, send_observer) (ground arith)

  send_unadmitted :
      (x : Error)
      → admit_send fl portal plane observers now confirm cfg ≡ err x
      → send_observer fl rn portal plane observers now confirm r cfg ≡ (portal, observers, r, err x)
  unfolding send_observer
  send_unadmitted x f = rw (f, send_observer)

  fix_flow-flow :
      (flow : PortalFlow)
      → portal.observer_flow ≡ flow
      → flow ≢ flow_inbound
      → ((fix_flow flow flow_outbound portal now).observer_flow ≡ flow_outbound)
        × ((fix_flow flow flow_outbound portal now).id ≡ portal.id)
  unfolding fix_flow
  fix_flow-flow flow e h = ground arith

  -- A refused SEND changes neither the portal, nor an observer, nor the random source.
  pub send_refused :
      (e : Error)
      → (send_observer fl rn portal plane observers now confirm r cfg).3 ≡ err e
      → send_observer fl rn portal plane observers now confirm r cfg ≡ (portal, observers, r, err e)
  send_refused e h = elim (Result-cases (admit_send fl portal plane observers now confirm cfg)) [
    | inr (x, f) ↦ ground (arith, send_unadmitted x f)
    | inl ((i, o), f) ↦ absurd (ground (arith, send_observer_lem i o f))
  ]

  duration_positive :
      IsInclusive rn
      → second ≤ cfg.observer_transit_min
      → cfg.observer_transit_min ≤ cfg.observer_transit_max
      → 0 < (transit_seconds rn r cfg).0
  unfolding transit_seconds
  duration_positive inc low high = omega (
    arith,
    inc.lower (cfg.observer_transit_min / second) (cfg.observer_transit_max / second) r
        (omega arith),
  )

  departed-valid :
      (o : Observer) (d : ℕ)
      → 0 < d
      → valid_phase (departed o now portal.id d).status (departed o now portal.id d) now ≡ true
  unfolding departed valid_phase valid_active_transit
  departed-valid o d h = ground arith

  departed-transit :
      (o : Observer) (d j : ℕ)
      → 0 < d
      → transit_round portal.id now none j (departed o now portal.id d)
        ≡ ok (some (j, departed o now portal.id d))
  unfolding departed transit_round
  departed-transit o d j h = ground arith

  roster-departed :
      (i : ℕ) (o : Observer) (d : ℕ)
      → get_elem? observers i ≡ some o
      → 0 < d
      → validate_observer_roster observers now ≡ ok tt
      → validate_observer_roster (set observers i (departed o now portal.id d)) now ≡ ok tt
  unfolding validate_observer_roster
  roster-departed i o d at long valid =
      roster_loop-set [] observers now i o (departed o now portal.id d) at (unfold departed in refl)
        (departed-valid o d long) valid

  busy-departed :
      (i : ℕ) (o : Observer) (d : ℕ)
      → get_elem? observers i ≡ some o
      → 0 < d
      → active_transit_observer_index observers portal.id now ≡ ok none
      → active_transit_observer_index (set observers i (departed o now portal.id d)) portal.id now
        ≡ ok (some (i, departed o now portal.id d))
  unfolding active_transit_observer_index
  busy-departed i o d at long free =
      scan-set portal.id now i 0 observers o (departed o now portal.id d) at
        (λ j. departed-transit o d j long) free
      ∙ ap (λ n. ok (some (n, departed o now portal.id d))) (omega arith)

  -- After an admitted SEND the available observer with the lowest ID is on its way out through the
  -- portal, which leads outward from then on; the others are as they were, the roster is valid, and
  -- the corridor is busy with that observer alone.
  pub send-ok :
      (id : ℕ)
      → IsInclusive rn
      → second ≤ cfg.observer_transit_min
      → cfg.observer_transit_min ≤ cfg.observer_transit_max
      → (send_observer fl rn portal plane observers now confirm r cfg).3 ≡ ok id
      → (i : ℕ) × (o : Observer) × let (portal', observers', r', _) =
            send_observer fl rn portal plane observers now confirm r cfg in
          let o' = departed o now portal.id (transit_seconds rn r cfg).0 in
          (o.id ≡ id)
          × Sendable fl cfg portal observers now confirm plane (i, o)
          × (observers' ≡ set observers i o')
          × (portal'.observer_flow ≡ flow_outbound)
          × (validate_observer_roster observers' now ≡ ok tt)
          × (active_transit_observer_index observers' portal'.id now ≡ ok (some (i, o')))
          × (o.status ≡ available)
          × All (λ b. b.status ≡ available → o.id ≤ b.id) observers
  send-ok id inc low high h =
      elim (Result-cases (admit_send fl portal plane observers now confirm cfg)) [
        | inr (x, f) ↦ absurd (ground (arith, send_unadmitted x f))
        | inl ((i, o), f) ↦
            let (at, free, lowest) = send-admitted i o f in
            let s = (admit_send-ok fl cfg portal observers now confirm plane (i, o)).0 f in
            let (flow, same) = fix_flow-flow portal.observer_flow refl s.direction in
            let d = (transit_seconds rn r cfg).0 in
            let long = duration_positive inc low high in
            let o' = departed o now portal.id d in
            (
              i,
              o,
              rw (send_observer_lem i o f) (
                ground (arith, send_observer_lem i o f),
                s,
                refl,
                flow,
                roster-departed i o d at long s.roster,
                rw same (busy-departed i o d at long s.clear.free),
                free,
                lowest,
              ),
            )
      ]
