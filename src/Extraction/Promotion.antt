-- ===== src/Extraction/Promotion.antt =====
-- An approved field that has all that an event needs has one (extraction.service.ts).
use brsr_v.Prelude.{
  ℕ, ◌≡◌, refl, sym, ap, ◌∙◌, subst, Bool, true, false, ◌&&◌, some, List, [], ◌∷◌, ◌==◌, ==_iff,
  All, codes,
}
use brsr_v.Schema.{Event, CanonicalMetric, field_data}
use brsr_v.Platform.{Platform, Number, Db}
use brsr_v.Platform.Laws.{IsDatabase}
use brsr_v.Metrics.{unit_allowed}
use brsr_v.Metrics.Refinement.{log-keeps}
use brsr_v.Extraction.{
  Field, Parts, is_approved_field, find_field, with_document, save_field, field_entry, is_source,
  comes_from, parts_of, promoted_unit, promoted_event, store_promoted, promote_registered,
  promote_new, promote, approved_field, approve_field,
}

module _ (𝓟 : Platform) where
  open 𝓟 use {Rows, get, put, create, many}

  -- an event of the tenant that comes from the field
  pub record HasEvent (t : Rows (Event (Number 𝓟))) (tenant field : ℕ) : Type 0 where
    pub event_id : ℕ
    pub event : Event (Number 𝓟)
    pub stored : get t event_id ≡ some event
    pub of_tenant : event.tenant ≡ tenant
    pub of_field : is_source 𝓟 field event.source_extraction ≡ true

  -- what a promotion asks for: a registered metric, a period, a number, a document and a unit that the
  -- registry allows
  pub record IsComplete (db : Db 𝓟) (f : Field 𝓟) : Type 0 where
    pub entry : CanonicalMetric
    pub registered : db.registry f.canonical_key ≡ some entry
    pub parts : Parts 𝓟
    pub parts_known : parts_of 𝓟 db f ≡ some parts
    pub unit_is_allowed : unit_allowed entry (promoted_unit 𝓟 f entry) ≡ true

  and-inv : (a b : Bool) → (a && b) ≡ true → (a ≡ true) × (b ≡ true)
  and-inv true b h = (refl, h)
  and-inv false b h = cc

  module _ (laws : IsDatabase 𝓟) where
    open laws use {get-create, many-All}

    HasEvent-promote_registered :
        (db : Db 𝓟) (id : ℕ) (f : Field 𝓟) (actor now : ℕ) (reg : CanonicalMetric) (parts : Parts 𝓟)
        → unit_allowed reg (promoted_unit 𝓟 f reg) ≡ true
        → HasEvent
            (promote_registered 𝓟 db id f actor now (some reg) (some parts)).0.events
            f.tenant
            id
    unfolding promote_registered store_promoted
    HasEvent-promote_registered db id f actor now reg parts u = rw u (
        subst (λ t. HasEvent t f.tenant id) (sym (log-keeps 𝓟 _ _).0)
          (record {
            event_id = (create db.events _).0;
            event =
                promoted_event 𝓟 id f parts.value parts.start parts.end (promoted_unit 𝓟 f reg)
                  parts.node actor now;
            stored = get-create db.events _;
            of_tenant = refl;
            of_field = (==_iff id id).1 refl;
          }))

    HasEvent-promote :
        (db : Db 𝓟) (id : ℕ) (f : Field 𝓟) (actor now : ℕ)
        → IsComplete db f
        → HasEvent (promote 𝓟 db id f actor now).0.events f.tenant id
    unfolding promote promote_new
    HasEvent-promote db id f actor now c =
        found (many db.events (comes_from 𝓟 f.tenant id))
          (many-All db.events (comes_from 𝓟 f.tenant id))
      where
        found :
            (es : List (ℕ × Event (Number 𝓟)))
            → All (λ x. (get db.events x.0 ≡ some x.1) × (comes_from 𝓟 f.tenant id x.1 ≡ true)) es
            → HasEvent (promote_new 𝓟 db id f actor now es).0.events f.tenant id
        found ((i, e) ∷ es) ((p, q), h) =
            let (a, b) = and-inv (e.tenant == f.tenant) (is_source 𝓟 id e.source_extraction) q in
            record {
              event_id = i;
              event = e;
              stored = p;
              of_tenant = (==_iff e.tenant f.tenant).0 a;
              of_field = b;
            }
        found [] h =
            rw (c.registered, c.parts_known)
              (HasEvent-promote_registered db id f actor now c.entry c.parts c.unit_is_allowed)

    -- storing the approval leaves the field complete
    saved-IsComplete :
        (db : Db 𝓟) (tenant id actor now : ℕ) (f : Field 𝓟)
        → IsComplete db f
        → IsComplete
            (save_field 𝓟 db tenant actor (codes "APPROVE") id f (approved_field 𝓟 f actor now))
            (approved_field 𝓟 f actor now)
    unfolding save_field
    saved-IsComplete db tenant id actor now f c =
        let kept =
          log-keeps 𝓟
            (field_entry 𝓟 tenant actor (codes "APPROVE") (some id) (some (field_data f))
              (some (field_data (approved_field 𝓟 f actor now))))
            (record db { fields = put db.fields id (approved_field 𝓟 f actor now) }) in
        record {
          entry = c.entry;
          registered = ap (λ r. r f.canonical_key) kept.2 ∙ c.registered;
          parts = c.parts;
          parts_known =
              ap (λ d. with_document 𝓟 f.period_start f.period_end f.value_num (get d f.document))
                kept.3
              ∙ c.parts_known;
          unit_is_allowed = c.unit_is_allowed;
        }

    -- Approving a field of the tenant that is not approved yet and that is complete leaves a metric
    -- event of the tenant that comes from it, one there already or a new one.
    pub approve_field-HasEvent :
        (db : Db 𝓟) (tenant id actor now : ℕ) (f : Field 𝓟)
        → find_field 𝓟 db tenant id ≡ some f
        → is_approved_field f.status ≡ false
        → IsComplete db f
        → HasEvent (approve_field 𝓟 db tenant id actor now).0.events f.tenant id
    unfolding approve_field
    approve_field-HasEvent db tenant id actor now f h s c = rw h (
        rw s (
          HasEvent-promote
            (save_field 𝓟 db tenant actor (codes "APPROVE") id f (approved_field 𝓟 f actor now)) id
            (approved_field 𝓟 f actor now) actor now (saved-IsComplete db tenant id actor now f c)))
