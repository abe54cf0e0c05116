-- ===== src/Extraction/Opening.antt =====
-- What `OpenExtractionPortal` of internal/domain/extraction.go does to the aggregate.
use omenpath_research_lab.Base.{
  ℕ, ◌≤◌, ◌≡◌, ◌⊎◌, inl, inr, refl, sym, ap, subst, ◌∙◌, List, [], ◌∷◌, ◌++◌, some, true, false,
  arith, Bool-cases, member, All,
}
use omenpath_research_lab.Base.Int.{◌-ℤ◌}
use omenpath_research_lab.Errors.{Error, ok, err, Result-cases}
use omenpath_research_lab.Float64.{Float64}
use omenpath_research_lab.Random.{Random}
use omenpath_research_lab.Config.{Config}
use omenpath_research_lab.Plane.{Plane}
use omenpath_research_lab.Portal.{Portal, is_open, flow_inbound}
use omenpath_research_lab.Lab.{LabState, current_energy, spend_energy}
use omenpath_research_lab.Lab.Energy.{IsValid, spend_energy-current}
use omenpath_research_lab.Observer.{Observer}
use omenpath_research_lab.Slots.{
  open_slots, first_free_slot, Distinct, Distinct-snoc, SlotsValid, SlotsValid-snoc,
}
use omenpath_research_lab.Factory.{new_extraction_portal}
use omenpath_research_lab.Extraction.{
  collection_loop, validate_extraction_portal_collection, admit_extraction, open_extraction_portal,
  extraction_plane_eligible,
}

abbrev pub portal_ids : {F : Type 0} → List (Portal F) → List ℕ
portal_ids [] = []
portal_ids (p ∷ ps) = p.id ∷ portal_ids ps

abbrev pub Fresh : List ℕ → List ℕ → Type 0
Fresh seen xs = All (λ x. member x seen ≡ false) xs

pub Fresh-cons :
    (y : ℕ) (seen xs : List ℕ) → Fresh (y ∷ seen) xs → (member y xs ≡ false) × Fresh seen xs
Fresh-cons y seen [] h = (refl, tt)
Fresh-cons y seen (x ∷ xs) h =
    let (away, rest) = Fresh-cons y seen xs h.1 in
    let here = h.0 in (ground arith, (ground arith, rest))

record Checked {F : Type 0} (ids slots : List ℕ) (ps : List (Portal F)) (new_id max_slots : ℕ)
    : Type 0 where
  distinct : Distinct (portal_ids ps)
  others : Fresh ids (portal_ids ps)
  own : Distinct (open_slots ps)
  free : Fresh slots (open_slots ps)
  in_range : All (λ s. (1 ≤ s) × (s ≤ max_slots)) (open_slots ps)
  new : member new_id (portal_ids ps) ≡ false

collection_loop-Checked :
    {F : Type 0} (ids slots : List ℕ) (ps : List (Portal F)) (new_id max_slots : ℕ)
    → collection_loop ids slots ps new_id max_slots ≡ ok tt
    → Checked ids slots ps new_id max_slots
unfolding collection_loop open_slots
collection_loop-Checked ids slots [] new_id max_slots h = record {
  distinct = tt;
  others = tt;
  own = tt;
  free = tt;
  in_range = tt;
  new = refl;
}
collection_loop-Checked ids slots (p ∷ ps) new_id max_slots h =
    elim (Bool-cases (is_open p.status)) [
      | inr done ↦
          let c = collection_loop-Checked (p.id ∷ ids) slots ps new_id max_slots (ground arith) in
          let (away, others) = Fresh-cons p.id ids (portal_ids ps) c.others in
          record {
            distinct = (away, c.distinct);
            others = (ground arith, others);
            own = rw done c.own;
            free = rw done c.free;
            in_range = rw done c.in_range;
            new = ground (arith, c.new);
          }
      | inl opened ↦
          let c =
            collection_loop-Checked (p.id ∷ ids) (p.slot_index ∷ slots) ps new_id max_slots
              (ground arith) in
          let (away, others) = Fresh-cons p.id ids (portal_ids ps) c.others in
          let (apart, free) = Fresh-cons p.slot_index slots (open_slots ps) c.free in
          record {
            distinct = (away, c.distinct);
            others = (ground arith, others);
            own = rw opened (apart, c.own);
            free = rw opened (ground arith, free);
            in_range = rw opened ((ground arith, ground arith), c.in_range);
            new = ground (arith, c.new);
          }
    ]

-- What the check of the collection establishes.
pub validate_extraction_portal_collection-SlotsValid :
    {F : Type 0} (ps : List (Portal F)) (new_id max_slots : ℕ)
    → validate_extraction_portal_collection ps new_id max_slots ≡ ok tt
    → Distinct (portal_ids ps) × (member new_id (portal_ids ps) ≡ false) × SlotsValid max_slots ps
unfolding validate_extraction_portal_collection
validate_extraction_portal_collection-SlotsValid ps new_id max_slots h =
    let c = collection_loop-Checked [] [] ps new_id max_slots h in
    (c.distinct, c.new, record { own = c.own; in_range = c.in_range })

portal_ids-snoc :
    {F : Type 0} (ps : List (Portal F)) (p : Portal F)
    → portal_ids (ps ++ p ∷ []) ≡ portal_ids ps ++ p.id ∷ []
portal_ids-snoc [] p = refl
portal_ids-snoc (q ∷ ps) p = ap (λ l. q.id ∷ l) (portal_ids-snoc ps p)

module _ {F R : Type 0} (rn : Random F R) (fl : Float64 F) (cfg : Config F) (lab : LabState)
    (portals : List (Portal F)) (plane : Plane) (observers : List Observer) (seq now : ℕ)
    (r : R) where
  admitted :
      (slot : ℕ)
      → admit_extraction fl lab portals plane observers seq now cfg ≡ ok slot
      → (extraction_plane_eligible observers plane.id now ≡ ok true)
        × (validate_extraction_portal_collection portals seq cfg.max_active_portals ≡ ok tt)
        × (first_free_slot portals cfg.max_active_portals ≡ some slot)
        × ((spend_energy lab now cfg.extraction_cost cfg).1 ≡ ok tt)
  unfolding admit_extraction spend_energy
  admitted slot h = ground arith

  extraction-made :
      (slot : ℕ)
      → let p = (new_extraction_portal rn seq plane.id slot now cfg r).0 in
        (p.id ≡ seq)
        × (p.slot_index ≡ slot)
        × (is_open p.status ≡ true)
        × (p.observer_flow ≡ flow_inbound)
        × (p.destination_plane_id ≡ plane.id)
  unfolding new_extraction_portal
  extraction-made slot = (refl, refl, refl, refl, refl)

  -- Opening an Extraction portal either is refused and changes neither the laboratory, nor the
  -- portals, nor the random source, or it answers the new portal's ID: an observer waits in the
  -- plane, one open inbound portal to it is appended, the IDs stay distinct and every open portal in
  -- a slot of its own, and the laboratory's energy of that moment falls by exactly the cost.
  pub open_extraction_portal-SlotsValid :
      let (lab', portals', r', answer) =
        open_extraction_portal rn fl lab portals plane observers seq now r cfg in
      ((e : Error) × (answer ≡ err e)) × (lab' ≡ lab) × (portals' ≡ portals) × (r' ≡ r)
      ⊎ (answer ≡ ok seq)
        × (extraction_plane_eligible observers plane.id now ≡ ok true)
        × ((p : Portal F) × (portals' ≡ portals ++ p ∷ [])
            × (p.id ≡ seq)
            × (is_open p.status ≡ true)
            × (p.observer_flow ≡ flow_inbound)
            × (p.destination_plane_id ≡ plane.id))
        × Distinct (portal_ids portals')
        × SlotsValid cfg.max_active_portals portals'
        × (current_energy lab' now cfg ≡ current_energy lab now cfg -ℤ cfg.extraction_cost)
        × IsValid cfg lab' now
  unfolding open_extraction_portal
  open_extraction_portal-SlotsValid =
      elim (Result-cases (admit_extraction fl lab portals plane observers seq now cfg)) [
        | inr (e, f) ↦ rw (f, open_extraction_portal) (inl ((e, refl), refl, refl, refl))
        | inl (slot, f) ↦
            let (eligible, checked, free, paid) = admitted slot f in
            let (distinct, new, slots) =
              validate_extraction_portal_collection-SlotsValid portals seq cfg.max_active_portals
                checked in
            let (current, _, valid) = spend_energy-current cfg lab now cfg.extraction_cost paid in
            let p = (new_extraction_portal rn seq plane.id slot now cfg r).0 in
            let (id, there, opens, inbound, leads) = extraction-made slot in
            rw (f, open_extraction_portal)
              (rw (paid, open_extraction_portal)
                (inr (
                  ap ok id,
                  eligible,
                  (p, refl, id, opens, inbound, leads),
                  subst Distinct
                      (sym (portal_ids-snoc portals p ∙ ap (λ n. portal_ids portals ++ n ∷ []) id))
                      (Distinct-snoc seq (portal_ids portals) distinct new),
                  SlotsValid-snoc cfg.max_active_portals portals p slots
                      (free ∙ ap some (sym there)) opens,
                  current,
                  valid,
                )))
      ]
