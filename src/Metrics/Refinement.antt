-- ===== src/Metrics/Refinement.antt =====
-- The handlers of metrics.service.ts refine the state machine.
use brsr_v.Prelude.{
  ℕ, ◌≡◌, refl, sym, ap, ◌∙◌, inl, inr, Bool, true, false, not, Option, none, some, Text, codes,
  ◌==◌, ltb, if◌then◌else◌, ◌∷◌, ==_iff, ==-ne, Bool-cases,
}
use brsr_v.Schema.{Event, CanonicalMetric}
use brsr_v.Platform.{Platform, Number, Db, Refusal, done, refused}
use brsr_v.Platform.Laws.{IsDatabase}
use brsr_v.Audit.{AuditLogInput, audit_row, log}
use brsr_v.Metrics.{
  CreateMetricEventDto, Request, Handled, event_entry, is_draft, is_submitted, is_approved,
  is_editable, unit_allowed, new_event, owns_node, scope_allowed, find_one, of_tenant, save,
  store_new, with_event, refuse, create_registered, create_event, update_event, submit, approve,
  reject, lock, handle, create_one, update_one, submit_one, approve_one, reject_one, lock_one,
}
use brsr_v.Metrics.Guards.{is_draft-inv, is_submitted-inv, is_approved-inv, not-inv, ltb-le}
use brsr_v.Metrics.Lifecycle.{
  Step, Admissible, Change, edits, submits, approves, rejects, locks, kept, stepped, born,
}

module _ (𝓟 : Platform) where
  open 𝓟 use {get, put, create, takes}

  -- The audit log changes nothing else.
  pub log-keeps :
      (i : AuditLogInput 𝓟) (db : Db 𝓟)
      → ((log 𝓟 i db).events ≡ db.events)
        × ((log 𝓟 i db).nodes ≡ db.nodes)
        × ((log 𝓟 i db).registry ≡ db.registry)
        × ((log 𝓟 i db).documents ≡ db.documents)
  unfolding log
  log-keeps i db = keeps (takes (audit_row 𝓟 i))
    where
      keeps :
          (b : Bool)
          → ((if b then record db { audit = audit_row 𝓟 i ∷ db.audit } else db).events ≡ db.events)
            × ((if b then record db { audit = audit_row 𝓟 i ∷ db.audit } else db).nodes ≡ db.nodes)
            × ((if b then record db { audit = audit_row 𝓟 i ∷ db.audit } else db).registry
                ≡ db.registry)
            × ((if b then record db { audit = audit_row 𝓟 i ∷ db.audit } else db).documents
                ≡ db.documents)
      keeps true = (refl, refl, refl, refl)
      keeps false = (refl, refl, refl, refl)

  if-some :
      {A : Type 0} (b : Bool) {x y : A}
      → (if b then some x else none) ≡ some y
      → (b ≡ true) × (x ≡ y)
  if-some true h = (refl, cc)
  if-some false h = cc

  of_tenant-inv :
      (tenant : ℕ) (o : Option (Event (Number 𝓟))) {e : Event (Number 𝓟)}
      → of_tenant 𝓟 tenant o ≡ some e
      → (o ≡ some e) × (e.tenant ≡ tenant)
  of_tenant-inv tenant none h = cc
  of_tenant-inv tenant (some d) h =
      let (p, q) = if-some (d.tenant == tenant) h in
      (ap some q, ap (λ x. x.tenant) (sym q) ∙ (==_iff d.tenant tenant).0 p)

  find_one-inv :
      (db : Db 𝓟) (tenant id : ℕ) {e : Event (Number 𝓟)}
      → find_one 𝓟 db tenant id ≡ some e
      → (get db.events id ≡ some e) × (e.tenant ≡ tenant)
  unfolding find_one
  find_one-inv db tenant id h = of_tenant-inv tenant (get db.events id) h

  module _ (laws : IsDatabase 𝓟) (db : Db 𝓟) (tenant actor now : ℕ) where
    -- A refusal leaves the database alone, and a success all but one row and the audit log.
    data Effect : Handled 𝓟 → Type 0 where
      refusal : (r : Refusal) → Effect (refuse 𝓟 db r)
      success :
          {after : Db 𝓟} {a : ℕ × Event (Number 𝓟)}
          → after.nodes ≡ db.nodes
          → after.registry ≡ db.registry
          → ((j : ℕ) → Change 𝓟 db tenant actor now (get db.events j) (get after.events j))
          → Effect (after, done a)

    Effect-if :
        (b : Bool) {x y : Handled 𝓟}
        → (b ≡ true → Effect x)
        → (b ≡ false → Effect y)
        → Effect (if b then x else y)
    Effect-if true hx hy = hx refl
    Effect-if false hx hy = hy refl

    Effect-with :
        (o : Option (Event (Number 𝓟))) {k : Event (Number 𝓟) → Handled 𝓟}
        → ((e : Event (Number 𝓟)) → o ≡ some e → Effect (k e))
        → Effect (with_event 𝓟 db o k)
    Effect-with none h = refusal _
    Effect-with (some e) h = h e refl

    Effect-save :
        (id : ℕ) (action : Text) {e e' : Event (Number 𝓟)}
        → find_one 𝓟 db tenant id ≡ some e
        → Step 𝓟 db tenant actor now e e'
        → Effect (save 𝓟 db tenant actor action id e e')
    unfolding save
    Effect-save id action {e} {e'} h s =
        let (there, mine) = find_one-inv db tenant id h in
        let (same, nodes, registry, documents) =
          log-keeps (event_entry 𝓟 tenant actor action id (some e) e')
            (record db { events = put db.events id e' }) in
        success nodes registry λ j. elim (Bool-cases (id == j)) [
          | inl p ↦
              let q = (==_iff id j).0 p in
              stepped (ap (get db.events) (sym q) ∙ there)
                (ap (λ t. get t j) same
                  ∙ ap (get (put db.events id e')) (sym q)
                  ∙ laws.get-put db.events id e e' there)
                mine s
          | inr p ↦
              kept (ap (λ t. get t j) same ∙ laws.get-put_other db.events id j e' (==-ne id j p))
        ]

    Effect-store :
        (dto : CreateMetricEventDto 𝓟)
        → Admissible 𝓟 db tenant dto
        → Effect (store_new 𝓟 db tenant actor (new_event 𝓟 tenant dto actor now))
    unfolding store_new
    Effect-store dto h =
        let e = new_event 𝓟 tenant dto actor now in
        let made = create db.events e in
        let (same, nodes, registry, documents) =
          log-keeps (event_entry 𝓟 tenant actor (codes "create") made.0 none e)
            (record db { events = made.1 }) in
        success nodes registry λ j. elim (Bool-cases (made.0 == j)) [
          | inl p ↦
              let q = (==_iff made.0 j).0 p in
              born dto (ap (get db.events) (sym q) ∙ laws.create_fresh db.events e)
                (ap (λ t. get t j) same ∙ ap (get made.1) (sym q) ∙ laws.get-create db.events e) h
          | inr p ↦
              kept (ap (λ t. get t j) same ∙ laws.get-create_other db.events e j (==-ne made.0 j p))
        ]

    Effect-registered :
        (dto : CreateMetricEventDto 𝓟) (o : Option CanonicalMetric)
        → db.registry dto.canonical_key ≡ o
        → owns_node 𝓟 db tenant dto.scope_node ≡ true
        → Effect (create_registered 𝓟 db tenant dto actor now o)
    Effect-registered dto none found h = refusal _
    Effect-registered dto (some reg) found h =
        Effect-if (not (unit_allowed reg dto.unit)) (λ _. refusal _)
          λ p.
            Effect-if (ltb dto.period_end dto.period_start) (λ _. refusal _)
              λ q. Effect-store dto (record {
                owned = h;
                entry = reg;
                registered = found;
                unit_is_allowed = not-inv (unit_allowed reg dto.unit) p;
                period_ordered = ltb-le dto.period_end dto.period_start q;
              })

    handle-Effect : (request : Request 𝓟) → Effect (handle 𝓟 tenant actor now db request)
    unfolding handle create_event update_event submit approve reject lock
    handle-Effect (create_one dto) =
        Effect-if (not (owns_node 𝓟 db tenant dto.scope_node)) (λ _. refusal _)
          λ p.
            Effect-registered dto (db.registry dto.canonical_key) refl
              (not-inv (owns_node 𝓟 db tenant dto.scope_node) p)
    handle-Effect (update_one id dto) = Effect-with (find_one 𝓟 db tenant id) λ e h.
        Effect-if (not (is_editable e.status)) (λ _. refusal _)
          λ p.
            Effect-if (not (scope_allowed 𝓟 db tenant e dto.scope_node)) (λ _. refusal _)
              λ q. Effect-save id _ h (edits dto (not-inv _ p) (not-inv _ q))
    handle-Effect (submit_one id) = Effect-with (find_one 𝓟 db tenant id) λ e h.
        Effect-if (not (is_draft e.status)) (λ _. refusal _)
          λ p. Effect-save id _ h (submits (is_draft-inv e.status p))
    handle-Effect (approve_one id) = Effect-with (find_one 𝓟 db tenant id) λ e h.
        Effect-if (not (is_submitted e.status)) (λ _. refusal _)
          λ p.
            Effect-if (e.submitted_by == actor) (λ _. refusal _)
              λ q.
                Effect-save id _ h
                  (approves (is_submitted-inv e.status p) (==-ne e.submitted_by actor q))
    handle-Effect (reject_one id reason) = Effect-with (find_one 𝓟 db tenant id) λ e h.
        Effect-if (not (is_submitted e.status)) (λ _. refusal _)
          λ p. Effect-save id _ h (rejects reason (is_submitted-inv e.status p))
    handle-Effect (lock_one id) = Effect-with (find_one 𝓟 db tenant id) λ e h.
        Effect-if (not (is_approved e.status)) (λ _. refusal _)
          λ p. Effect-save id _ h (locks (is_approved-inv e.status p))

    Effect-at :
        {r : Handled 𝓟}
        → Effect r
        → (j : ℕ) → Change 𝓟 db tenant actor now (get db.events j) (get r.0.events j)
    Effect-at (refusal r) j = kept refl
    Effect-at (success n r h) j = h j

    Effect-nodes : {r : Handled 𝓟} → Effect r → r.0.nodes ≡ db.nodes
    Effect-nodes (refusal r) = refl
    Effect-nodes (success n r h) = n

    Effect-refused : {r : Handled 𝓟} {x : Refusal} → Effect r → r.1 ≡ refused x → r.0 ≡ db
    Effect-refused (refusal r) e = refl
    Effect-refused (success n r h) e = cc

    pub handle-nodes :
        (request : Request 𝓟) → (handle 𝓟 tenant actor now db request).0.nodes ≡ db.nodes
    handle-nodes request = Effect-nodes (handle-Effect request)

    -- A request that is refused, for whatever reason, leaves the database as it was, its audit log
    -- included.
    pub handle-refused :
        (request : Request 𝓟) {x : Refusal}
        → (handle 𝓟 tenant actor now db request).1 ≡ refused x
        → (handle 𝓟 tenant actor now db request).0 ≡ db
    handle-refused request h = Effect-refused (handle-Effect request) h

    -- Whatever the request, and whatever it answers: under every id the row stays as it is, or it is
    -- an event of the caller's tenant that took a step of the state machine, or it is new and all
    -- conditions of creation held.
    pub handle-refines :
        (request : Request 𝓟) (j : ℕ)
        → Change 𝓟 db tenant actor now
            (get db.events j)
            (get (handle 𝓟 tenant actor now db request).0.events j)
    handle-refines request j = Effect-at (handle-Effect request) j
