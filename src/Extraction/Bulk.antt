-- ===== src/Extraction/Bulk.antt =====
-- `bulkApprove` of extraction.service.ts, and sequences of requests.
use brsr_v.Prelude.{
  ℕ, ◌+◌, Bool, false, ◌&&◌, ◌||◌, Option, none, some, List, [], ◌∷◌, Text, codes, ltb, ◌==◌,
  if◌then◌else◌, length,
}
use brsr_v.Platform.{Platform, Db, Answer, conflict, done, refused}
use brsr_v.Audit.{log}
use brsr_v.Extraction.{
  Field, UpdateExtractionFieldDto, is_approved_field, field_of_tenant, field_entry, approved_field,
  promote, update_field, reject_field, approve_field,
}

unfoldable pub is_among : ℕ → List ℕ → Bool
is_among id [] = false
is_among id (j ∷ ids) = id == j || is_among id ids

module _ (𝓟 : Platform) where
  open 𝓟 use {Rows, get, put, many}

  -- the table and the count that `updateMany` leaves, one id after another; an id that comes again
  -- finds its row approved
  abbrev pub approve_found : Rows (Field 𝓟) → ℕ → ℕ → ℕ → Option (Field 𝓟) → Rows (Field 𝓟) × ℕ
  approve_found t id actor now none = (t, 0)
  approve_found t id actor now (some f) =
      if is_approved_field f.status then (t, 0) else (put t id (approved_field 𝓟 f actor now), 1)

  unfoldable pub approve_rows : Rows (Field 𝓟) → ℕ → List ℕ → ℕ → ℕ → Rows (Field 𝓟) × ℕ
  approve_rows t tenant [] actor now = (t, 0)
  approve_rows t tenant (id ∷ ids) actor now =
      let (t₁, n) = approve_found t id actor now (field_of_tenant 𝓟 tenant (get t id)) in
      let (t₂, m) = approve_rows t₁ tenant ids actor now in (t₂, n + m)

  -- the rows with one of the ids
  unfoldable pub only_ids : List ℕ → List (ℕ × Field 𝓟) → List (ℕ × Field 𝓟)
  unfolding is_among
  only_ids ids [] = []
  only_ids ids ((id, f) ∷ fs) =
      let rest = only_ids ids fs in if is_among id ids then (id, f) ∷ rest else rest

  abbrev pub counted : Option ℕ → ℕ
  counted none = 0
  counted (some id) = 1

  -- the loop of promotions, and how many returned an event
  unfoldable pub promote_all : Db 𝓟 → List (ℕ × Field 𝓟) → ℕ → ℕ → Db 𝓟 × ℕ
  unfolding promote
  promote_all db [] actor now = (db, 0)
  promote_all db ((id, f) ∷ fs) actor now =
      let (db₁, o) = promote 𝓟 db id f actor now in
      let (db₂, n) = promote_all db₁ fs actor now in (db₂, counted o + n)

  -- the database after `updateMany` and its entry in the audit log
  unfoldable pub listed_saved : Db 𝓟 → ℕ → List ℕ → ℕ → ℕ → Db 𝓟
  unfolding approve_rows log
  listed_saved db tenant ids actor now =
      log 𝓟 (field_entry 𝓟 tenant actor (codes "APPROVE") none none none)
        (record db { fields = (approve_rows db.fields tenant ids actor now).0 })

  -- the approved fields that are then read
  unfoldable pub listed_found : Db 𝓟 → ℕ → List ℕ → List (ℕ × Field 𝓟)
  unfolding only_ids
  listed_found db tenant ids =
      only_ids ids (many db.fields (λ f. f.tenant == tenant && is_approved_field f.status))

  -- what `bulkApprove` does with ids that are not too many; the answer is how many fields were
  -- approved, and how many promotions returned an event
  unfoldable pub approve_listed : Db 𝓟 → ℕ → List ℕ → ℕ → ℕ → Db 𝓟 × Answer (ℕ × ℕ)
  unfolding approve_rows listed_saved listed_found promote_all
  approve_listed db tenant ids actor now =
      let saved = listed_saved db tenant ids actor now in
      let (promoted, n) = promote_all saved (listed_found saved tenant ids) actor now in
      (promoted, done ((approve_rows db.fields tenant ids actor now).1, n))

  unfoldable pub bulk_approve : Db 𝓟 → ℕ → List ℕ → ℕ → ℕ → Db 𝓟 × Answer (ℕ × ℕ)
  unfolding approve_listed
  bulk_approve db tenant [] actor now = (db, done (0, 0))
  bulk_approve db tenant (i ∷ ids) actor now =
      let approved_rows = approve_listed db tenant (i ∷ ids) actor now in
      if ltb 1000 (length (i ∷ ids)) then (db, refused conflict) else approved_rows

  pub data FieldRequest : Type 0 where
    update_one : ℕ → UpdateExtractionFieldDto 𝓟 → FieldRequest
    reject_one : ℕ → Text → FieldRequest
    approve_one : ℕ → FieldRequest
    approve_many : List ℕ → FieldRequest

  -- a request of a user of a tenant at a time
  pub record FieldCall : Type 0 where
    pub tenant : ℕ
    pub actor : ℕ
    pub now : ℕ
    pub request : FieldRequest

  -- the database that a request leaves
  unfoldable pub handle_field : ℕ → ℕ → ℕ → Db 𝓟 → FieldRequest → Db 𝓟
  unfolding update_field reject_field approve_field bulk_approve
  handle_field tenant actor now db (update_one id dto) =
      (update_field 𝓟 db tenant id dto actor now).0
  handle_field tenant actor now db (reject_one id reason) =
      (reject_field 𝓟 db tenant id reason actor now).0
  handle_field tenant actor now db (approve_one id) = (approve_field 𝓟 db tenant id actor now).0
  handle_field tenant actor now db (approve_many ids) = (bulk_approve db tenant ids actor now).0

  unfoldable pub run_fields : Db 𝓟 → List FieldCall → Db 𝓟
  unfolding handle_field
  run_fields db [] = db
  run_fields db (c ∷ cs) = run_fields (handle_field c.tenant c.actor c.now db c.request) cs
