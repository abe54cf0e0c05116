-- ===== src/Simulation/Attention.antt =====
-- internal/domain/simulation_attention.go: the portal that needs attention.
use omenpath_research_lab.Base.{
  ◌<◌, ◌≤◌, none, [], ◌∷◌, All, ℕ, ◌≡◌, ◌⊎◌, inl, inr, refl, sym, ◌∙◌, subst, ap, some_injective,
  List, Option, some, Bool, true, false, not, ◌||◌, ◌==◌, ltb, arith, Bool-cases, if◌then◌else◌,
}
use omenpath_research_lab.Errors.{Result, ok, err, simulation_invariant}
use omenpath_research_lab.Float64.{Float64, IsOrdered}
use omenpath_research_lab.Config.{Config}
use omenpath_research_lab.Portal.{
  Portal, PortalStability, stable, unstable, status_open, is_open, is_unstable,
}
use omenpath_research_lab.Portal.Derived.{effective_lifetime}
use omenpath_research_lab.Portal.Risk.{risk_score}
use omenpath_research_lab.Scan.{pick, Picks, skips, takes, keeps, Best, pick-Best}

-- Two flags differ.
abbrev pub differ : Bool → Bool → Bool
differ true b = not b
differ false b = b

abbrev pub IsOpen : {F : Type 0} → Portal F → Type 0
IsOpen p = p.status ≡ status_open

module _ {F : Type 0} (fl : Float64 F) where
  unfoldable pub attention_before : Portal F → Portal F → ℕ → Config F → Bool
  attention_before a b now cfg =
      let a_score = risk_score fl a now cfg in
      let b_score = risk_score fl b now cfg in
      let a_lifetime = effective_lifetime fl a now in
      let b_lifetime = effective_lifetime fl b now in
      if not (fl.eq a_score b_score)
      then fl.lt b_score a_score
      else if differ (is_unstable a.stability) (is_unstable b.stability)
      then is_unstable a.stability
      else if not (a_lifetime == b_lifetime)
      then ltb a_lifetime b_lifetime
      else if not (a.opened_at == b.opened_at)
      then ltb a.opened_at b.opened_at
      else ltb a.id b.id

  unfoldable pub attention_round :
      ℕ → Config F → Option (ℕ × Portal F) → ℕ → Portal F → Option (ℕ × Portal F)
  attention_round now cfg none i p = if is_open p.status then some (i, p) else none
  attention_round now cfg (some (j, b)) i p =
      if not (is_open p.status)
      then some (j, b)
      else if attention_before p b now cfg
      then some (i, p)
      else some (j, b)

  -- The index comes with the portal at it.
  unfoldable pub needs_attention_portal_index :
      List (Portal F) → ℕ → Config F → Result (Option (ℕ × Portal F))
  unfolding pick
  needs_attention_portal_index portals now cfg =
      if cfg.risk_safe_horizon == 0 || fl.lt cfg.risk_instability_penalty (fl.ratio 0 1)
      then err simulation_invariant
      else ok (pick (attention_round now cfg) none 0 portals)

  -- No reason to prefer b to a.
  abbrev pub NotAfter : ℕ → Config F → Portal F → Portal F → Type 0
  NotAfter now cfg a b = attention_before b a now cfg ≡ false

  module _ (law : IsOrdered fl) (now : ℕ) (cfg : Config F) where
    NotAfter-refl : (a : Portal F) → NotAfter now cfg a a
    unfolding attention_before
    NotAfter-refl a =
        let same =
          law.eq_of_le (risk_score fl a now cfg) (risk_score fl a now cfg)
            (law.le_refl (risk_score fl a now cfg)) (law.le_refl (risk_score fl a now cfg)) in
        ground arith

    Same : F → F → Type 0
    Same x y = (fl.eq x y ≡ true) × (fl.eq y x ≡ true)

    Above : F → F → Type 0
    Above x y = (fl.eq x y ≡ false) × (fl.eq y x ≡ false) × (fl.lt y x ≡ true) × (fl.lt x y ≡ false)

    above : (x y : F) → fl.lt y x ≡ true → Above x y
    unfolding Above
    above x y h =
        let le = law.le_of_lt y x h in
        let low = law.not_lt_of_le x y le in
        (
          elim (Bool-cases (fl.eq x y)) [
            | inl e ↦ absurd (let k = law.not_lt_of_le y x (law.le_of_eq x y e).0 in ground arith)
            | inr e ↦ e
          ],
          elim (Bool-cases (fl.eq y x)) [
            | inl e ↦ absurd (let k = law.not_lt_of_le y x (law.le_of_eq y x e).1 in ground arith)
            | inr e ↦ e
          ],
          h,
          low,
        )

    score-cases : (x y : F) → Same x y ⊎ Above x y ⊎ Above y x
    unfolding Same
    score-cases x y = elim (Bool-cases (fl.lt y x)) [
      | inl h ↦ inr (inl (above x y h))
      | inr not_above ↦ elim (Bool-cases (fl.lt x y)) [
        | inl h ↦ inr (inr (above y x h))
        | inr not_below ↦
            let p = law.le_of_not_lt y x not_above in
            let q = law.le_of_not_lt x y not_below in
            inl (law.eq_of_le x y p q, law.eq_of_le y x q p)
      ]
    ]

    NotAfter-antisym : (a b : Portal F) → attention_before a b now cfg ≡ true → NotAfter now cfg a b
    unfolding attention_before Same Above
    NotAfter-antisym a b h =
        elim (score-cases (risk_score fl a now cfg) (risk_score fl b now cfg)) [
          | inl same ↦ ground arith
          | inr (inl high) ↦ ground arith
          | inr (inr low) ↦ absurd (ground arith)
        ]

    Above-le : (x y : F) → Same x y ⊎ Above x y → fl.le y x ≡ true
    unfolding Same Above
    Above-le x y (inl s) = (law.le_of_eq x y s.0).1
    Above-le x y (inr a) = law.le_of_lt y x a.2

    -- Reaching z from x through y, with a step down on the way.
    Above-trans :
        (x y z : F)
        → Same x y ⊎ Above x y
        → Same y z ⊎ Above y z
        → Same x y × Same y z × Same x z ⊎ Above x z
    unfolding Same Above
    Above-trans x y z p q =
        let down : fl.le z x ≡ true = law.le_trans z y x (Above-le y z q) (Above-le x y p) in
        elim (score-cases x z) [
          | inr (inl a) ↦ inr a
          | inr (inr a) ↦ absurd (let k = law.not_lt_of_le x z down in ground arith)
          | inl s ↦
              let (up, _) = law.le_of_eq x z s.0 in
              let xy : fl.le x y ≡ true = law.le_trans x z y up (Above-le y z q) in
              let yz : fl.le y z ≡ true = law.le_trans y x z (Above-le x y p) up in
              inl (
                (law.eq_of_le x y xy (Above-le x y p), law.eq_of_le y x (Above-le x y p) xy),
                (law.eq_of_le y z yz (Above-le y z q), law.eq_of_le z y (Above-le y z q) yz),
                s,
              )
        ]

    NotAfter-score :
        (a b : Portal F)
        → NotAfter now cfg a b
        → Same (risk_score fl a now cfg) (risk_score fl b now cfg)
          ⊎ Above (risk_score fl a now cfg) (risk_score fl b now cfg)
    unfolding attention_before Same Above
    NotAfter-score a b h = elim (score-cases (risk_score fl a now cfg) (risk_score fl b now cfg)) [
      | inl same ↦ inl same
      | inr (inl high) ↦ inr high
      | inr (inr low) ↦ absurd (ground arith)
    ]

    NotAfter-trans :
        (a b c : Portal F) → NotAfter now cfg a b → NotAfter now cfg b c → NotAfter now cfg a c
    unfolding attention_before Same Above
    NotAfter-trans a b c p q =
        elim (Above-trans (risk_score fl a now cfg) (risk_score fl b now cfg)
          (risk_score fl c now cfg) (NotAfter-score a b p) (NotAfter-score b c q)) [
            | inl (xy, yz, xz) ↦ ground arith
            | inr high ↦ ground arith
          ]

    attention_round-Picks :
        (sel : Option (ℕ × Portal F)) (i : ℕ) (p : Portal F)
        → Picks IsOpen (NotAfter now cfg) sel i p (attention_round now cfg sel i p)
    unfolding attention_round
    attention_round-Picks none i p = elim (Bool-cases (is_open p.status)) [
      | inr done ↦ rw done (skips (λ e. ground arith))
      | inl opened ↦ rw opened (takes (ground arith) (λ j b e. cc))
    ]
    attention_round-Picks (some (j, b)) i p = elim (Bool-cases (is_open p.status)) [
      | inr done ↦ rw done (skips (λ e. ground arith))
      | inl opened ↦ rw opened (elim (Bool-cases (attention_before p b now cfg)) [
        | inl first ↦ rw first (
            takes (ground arith) (λ k c e.
              subst (NotAfter now cfg p) (ap (λ (t : ℕ × Portal F). t.1) (some_injective e))
                (NotAfter-antisym p b first)))
        | inr later ↦ rw later (keeps j b refl later)
      ])
    ]

    -- The first of the portal's claims to attention in which the two differ is in favour of a: the
    -- higher risk score, being unstable, the shorter effective lifetime, having opened earlier, the
    -- lower ID; or they differ in none.
    abbrev pub Precedes : Portal F → Portal F → Type 0
    Precedes a b =
        (fl.lt (risk_score fl b now cfg) (risk_score fl a now cfg) ≡ true)
        ⊎ (fl.eq (risk_score fl a now cfg) (risk_score fl b now cfg) ≡ true)
          × ((a.stability ≡ unstable) × (b.stability ≡ stable)
              ⊎ (a.stability ≡ b.stability)
                × ((effective_lifetime fl a now < effective_lifetime fl b now)
                    ⊎ (effective_lifetime fl a now ≡ effective_lifetime fl b now)
                      × ((a.opened_at < b.opened_at)
                          ⊎ (a.opened_at ≡ b.opened_at) × (a.id ≤ b.id))))

    Later : Portal F → Portal F → Type 0
    Later a b =
        (effective_lifetime fl a now < effective_lifetime fl b now)
        ⊎ (effective_lifetime fl a now ≡ effective_lifetime fl b now)
          × ((a.opened_at < b.opened_at) ⊎ (a.opened_at ≡ b.opened_at) × (a.id ≤ b.id))

    by_lifetime :
        (a b : Portal F)
        → differ (is_unstable b.stability) (is_unstable a.stability) ≡ false
        → fl.eq (risk_score fl b now cfg) (risk_score fl a now cfg) ≡ true
        → NotAfter now cfg a b
        → Later a b
    unfolding attention_before Later
    by_lifetime a b same even h =
        elim (Bool-cases (effective_lifetime fl b now == effective_lifetime fl a now)) [
          | inr other ↦ inl (ground arith)
          | inl lasts ↦ elim (Bool-cases (b.opened_at == a.opened_at)) [
            | inr other ↦ inr (ground arith, inl (ground arith))
            | inl opened ↦ inr (ground arith, inr (ground arith, ground arith))
          ]
        ]

    by_stability :
        (a b : Portal F) (x y : PortalStability)
        → a.stability ≡ x
        → b.stability ≡ y
        → fl.eq (risk_score fl b now cfg) (risk_score fl a now cfg) ≡ true
        → NotAfter now cfg a b
        → (a.stability ≡ unstable) × (b.stability ≡ stable)
          ⊎ (a.stability ≡ b.stability) × Later a b
    unfolding attention_before
    by_stability a b unstable stable p q even h = inl (p, q)
    by_stability a b stable unstable p q even h = absurd (ground arith)
    by_stability a b stable stable p q even h =
        inr (p ∙ sym q, by_lifetime a b (ground arith) even h)
    by_stability a b unstable unstable p q even h =
        inr (p ∙ sym q, by_lifetime a b (ground arith) even h)

    NotAfter-Precedes : (a b : Portal F) → NotAfter now cfg a b → Precedes a b
    unfolding Same Above Later
    NotAfter-Precedes a b h = elim (NotAfter-score a b h) [
      | inr high ↦ inl high.2
      | inl same ↦ inr (same.0, by_stability a b a.stability b.stability refl refl same.1 h)
    ]

    All-Precedes :
        (b : Portal F) (ps : List (Portal F))
        → All (λ p. IsOpen p → NotAfter now cfg b p) ps
        → All (λ p. IsOpen p → Precedes b p) ps
    All-Precedes b [] h = tt
    All-Precedes b (p ∷ ps) h = ((λ o. NotAfter-Precedes b p (h.0 o)), All-Precedes b ps h.1)

    Best-Precedes :
        (ps : List (Portal F)) (r : Option (ℕ × Portal F))
        → Best IsOpen (NotAfter now cfg) ps r
        → Best IsOpen Precedes ps r
    Best-Precedes ps none h = h
    Best-Precedes ps (some (i, b)) h = (h.0, h.1, All-Precedes b ps h.2)

    -- With ordered scores the portal that is found is open and precedes every open portal: by the
    -- risk score, then unstable first, then by the effective lifetime, the time of opening and the
    -- ID. None is found only if none is open.
    pub needs_attention_portal_index-Best :
        (portals : List (Portal F)) (r : Option (ℕ × Portal F))
        → needs_attention_portal_index portals now cfg ≡ ok r
        → Best IsOpen Precedes portals r
    unfolding needs_attention_portal_index
    needs_attention_portal_index-Best portals r h = Best-Precedes portals r (
        subst (Best IsOpen (NotAfter now cfg) portals) (ground arith) (
          pick-Best IsOpen (NotAfter now cfg) NotAfter-refl NotAfter-trans (attention_round now cfg)
            attention_round-Picks portals))
