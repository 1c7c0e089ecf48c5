-- ===== src/Extraction/Single.antt =====
-- At most one metric event comes from an extracted field (extraction.service.ts).
use brsr_v.Prelude.{
  codes, ℕ, ◌≤◌, ◌≡◌, refl, sym, ap, ◌∙◌, subst, inl, inr, Bool, true, false, ◌&&◌, Option, none,
  some, List, [], ◌∷◌, Text, ltb, ◌==◌, ==_iff, if◌then◌else◌, Bool-cases, length, arith,
}
use brsr_v.Schema.{Event, CanonicalMetric}
use brsr_v.Platform.{Platform, Number, Db, not_found, refused, conflict}
use brsr_v.Platform.Laws.{IsDatabase}
use brsr_v.Audit.{AuditLogInput, log}
use brsr_v.Metrics.{unit_allowed}
use brsr_v.Metrics.Refinement.{log-keeps}
use brsr_v.Extraction.{
  Field, FieldHandled, Parts, is_approved_field, find_field, with_field, save_field, update_field,
  reject_field, is_source, comes_from, store_promoted, promoted_unit, promote_registered,
  promote_new, promote, approve_field, approved_field,
}
use brsr_v.Extraction.Bulk.{
  FieldRequest, FieldCall, update_one, reject_one, approve_one, approve_many, promote_all,
  bulk_approve, approve_listed, listed_saved, listed_found, handle_field, run_fields,
}

module _ (𝓟 : Platform) where
  open 𝓟 use {Rows, get, create, many}

  -- the events of a tenant that come from a field
  abbrev pub events_from : Rows (Event (Number 𝓟)) → ℕ → ℕ → List (ℕ × Event (Number 𝓟))
  events_from t tenant id = many t (comes_from 𝓟 tenant id)

  -- no field of any tenant is the source of two events
  unfoldable pub AtMostOne : Rows (Event (Number 𝓟)) → Type 0
  AtMostOne t = (tenant id : ℕ) → length (events_from t tenant id) ≤ 1

  and-inv : (a b : Bool) → (a && b) ≡ true → (a ≡ true) × (b ≡ true)
  and-inv true b h = (refl, h)
  and-inv false b h = cc

  module _ (laws : IsDatabase 𝓟) where
    open laws use {length-many-create}

    -- an event that comes from a field that is the source of none
    AtMostOne-create :
        (t : Rows (Event (Number 𝓟))) (e : Event (Number 𝓟)) (x : ℕ)
        → e.source_extraction ≡ some x
        → events_from t e.tenant x ≡ []
        → AtMostOne t
        → AtMostOne (create t e).1
    unfolding AtMostOne
    AtMostOne-create t e x s n h tenant id =
        let grown = length-many-create t e (comes_from 𝓟 tenant id) in
        elim (Bool-cases (comes_from 𝓟 tenant id e)) [
          | inr q ↦ omega (arith, h tenant id, rw q at grown)
          | inl q ↦
              let (a, b) = and-inv (e.tenant == tenant) (is_source 𝓟 id e.source_extraction) q in
              let same = (==_iff x id).0 (rw s at b) in
              let empty = ap length (
                ap (λ y. events_from t y id) (sym ((==_iff e.tenant tenant).0 a))
                ∙ ap (events_from t e.tenant) (sym same)
                ∙ n) in
              omega (arith, empty, rw q at grown)
        ]

    AtMostOne-promote_registered :
        (db : Db 𝓟) (id : ℕ) (f : Field 𝓟) (actor now : ℕ) (reg : Option CanonicalMetric)
        (parts : Option (Parts 𝓟))
        → events_from db.events f.tenant id ≡ []
        → AtMostOne db.events
        → AtMostOne (promote_registered 𝓟 db id f actor now reg parts).0.events
    unfolding promote_registered store_promoted
    AtMostOne-promote_registered db id f actor now none parts n h = h
    AtMostOne-promote_registered db id f actor now (some reg) none n h = h
    AtMostOne-promote_registered db id f actor now (some reg) (some parts) n h =
        elim (Bool-cases (unit_allowed reg (promoted_unit 𝓟 f reg))) [
          | inr q ↦ rw q h
          | inl q ↦
              rw q (
                subst AtMostOne (sym (log-keeps 𝓟 _ _).0)
                  (AtMostOne-create db.events _ id refl n h))
        ]

    AtMostOne-promote :
        (db : Db 𝓟) (id : ℕ) (f : Field 𝓟) (actor now : ℕ)
        → AtMostOne db.events
        → AtMostOne (promote 𝓟 db id f actor now).0.events
    unfolding promote promote_new
    AtMostOne-promote db id f actor now h = found (events_from db.events f.tenant id) refl
      where
        found :
            (es : List (ℕ × Event (Number 𝓟)))
            → events_from db.events f.tenant id ≡ es
            → AtMostOne (promote_new 𝓟 db id f actor now es).0.events
        found [] e = AtMostOne-promote_registered db id f actor now _ _ e h
        found ((i, d) ∷ es) e = h

    AtMostOne-promote_all :
        (db : Db 𝓟) (fs : List (ℕ × Field 𝓟)) (actor now : ℕ)
        → AtMostOne db.events
        → AtMostOne (promote_all 𝓟 db fs actor now).0.events
    unfolding promote_all
    AtMostOne-promote_all db [] actor now h = h
    AtMostOne-promote_all db ((id, f) ∷ fs) actor now h =
        AtMostOne-promote_all (promote 𝓟 db id f actor now).0 fs actor now
          (AtMostOne-promote db id f actor now h)

    AtMostOne-log :
        (i : AuditLogInput 𝓟) (db : Db 𝓟) → AtMostOne db.events → AtMostOne (log 𝓟 i db).events
    AtMostOne-log i db h = subst AtMostOne (sym (log-keeps 𝓟 i db).0) h

    AtMostOne-save_field :
        (db : Db 𝓟) (tenant actor : ℕ) (action : Text) (id : ℕ) (before after : Field 𝓟)
        → AtMostOne db.events
        → AtMostOne (save_field 𝓟 db tenant actor action id before after).events
    unfolding save_field
    AtMostOne-save_field db tenant actor action id before after h = AtMostOne-log _ _ h

    with_field-cases :
        (P : FieldHandled 𝓟 → Type 0) (db : Db 𝓟) (o : Option (Field 𝓟))
        (handle : Field 𝓟 → FieldHandled 𝓟)
        → P (db, refused not_found)
        → ((f : Field 𝓟) → P (handle f))
        → P (with_field 𝓟 db o handle)
    with_field-cases P db none handle h k = h
    with_field-cases P db (some f) handle h k = k f

    AtMostOne-listed_saved :
        (db : Db 𝓟) (tenant : ℕ) (ids : List ℕ) (actor now : ℕ)
        → AtMostOne db.events
        → AtMostOne (listed_saved 𝓟 db tenant ids actor now).events
    unfolding listed_saved
    AtMostOne-listed_saved db tenant ids actor now h = AtMostOne-log _ _ h

    AtMostOne-approve_listed :
        (db : Db 𝓟) (tenant : ℕ) (ids : List ℕ) (actor now : ℕ)
        → AtMostOne db.events
        → AtMostOne (approve_listed 𝓟 db tenant ids actor now).0.events
    unfolding approve_listed
    AtMostOne-approve_listed db tenant ids actor now h =
        AtMostOne-promote_all (listed_saved 𝓟 db tenant ids actor now)
          (listed_found 𝓟 (listed_saved 𝓟 db tenant ids actor now) tenant ids) actor now
          (AtMostOne-listed_saved db tenant ids actor now h)

    either :
        {A : Type 0} (b : Bool) (x y : Db 𝓟 × A)
        → AtMostOne x.0.events
        → AtMostOne y.0.events
        → AtMostOne (if b then x else y).0.events
    either true x y h k = h
    either false x y h k = k

    AtMostOne-handle_field :
        (tenant actor now : ℕ) (db : Db 𝓟) (r : FieldRequest 𝓟)
        → AtMostOne db.events
        → AtMostOne (handle_field 𝓟 tenant actor now db r).events
    unfolding handle_field update_field reject_field approve_field bulk_approve
    AtMostOne-handle_field tenant actor now db (update_one id dto) h =
        with_field-cases (λ x. AtMostOne x.0.events) db (find_field 𝓟 db tenant id) _ h
          λ f. elim (Bool-cases (is_approved_field f.status)) [
            | inl q ↦ rw q h
            | inr q ↦ rw q (AtMostOne-save_field db tenant actor _ id f _ h)
          ]
    AtMostOne-handle_field tenant actor now db (reject_one id reason) h =
        with_field-cases (λ x. AtMostOne x.0.events) db (find_field 𝓟 db tenant id) _ h
          λ f. AtMostOne-save_field db tenant actor _ id f _ h
    AtMostOne-handle_field tenant actor now db (approve_one id) h =
        with_field-cases (λ x. AtMostOne x.0.events) db (find_field 𝓟 db tenant id) _ h
          λ f. elim (Bool-cases (is_approved_field f.status)) [
            | inl q ↦ rw q h
            | inr q ↦ rw q (
                AtMostOne-promote
                  (save_field 𝓟 db tenant actor (codes "APPROVE") id f
                    (approved_field 𝓟 f actor now))
                  id (approved_field 𝓟 f actor now) actor now
                  (AtMostOne-save_field db tenant actor _ id f _ h))
          ]
    AtMostOne-handle_field tenant actor now db (approve_many []) h = h
    AtMostOne-handle_field tenant actor now db (approve_many (i ∷ ids)) h =
        either (ltb 1000 (length (i ∷ ids))) (db, refused conflict)
          (approve_listed 𝓟 db tenant (i ∷ ids) actor now) h
          (AtMostOne-approve_listed db tenant (i ∷ ids) actor now h)

  -- From a database in which no field is the source of two events of its tenant, any requests to
  -- review fields, one by one or in bulk, leave one: however often a field is approved, at most one
  -- event comes from it.
  pub run_fields-AtMostOne :
      IsDatabase 𝓟
      → (db : Db 𝓟) (calls : List (FieldCall 𝓟)) → AtMostOne db.events
      → AtMostOne (run_fields 𝓟 db calls).events
  unfolding run_fields
  run_fields-AtMostOne laws db [] h = h
  run_fields-AtMostOne laws db (c ∷ cs) h =
      run_fields-AtMostOne laws (handle_field 𝓟 c.tenant c.actor c.now db c.request) cs
        (AtMostOne-handle_field laws c.tenant c.actor c.now db c.request h)
