-- ===== src/Metrics/History.antt =====
-- What holds of the metric events through any sequence of requests to metrics.service.ts.
use brsr_v.Prelude.{ℕ, ◌≡◌, ◌≢◌, sym, ap, ◌∙◌, Option, some, List, [], ◌∷◌, All}
use brsr_v.Schema.{Event, locked}
use brsr_v.Platform.{Platform, Number, Db}
use brsr_v.Platform.Laws.{IsDatabase}
use brsr_v.Metrics.{Request, is_editable, handle}
use brsr_v.Metrics.Lifecycle.{
  Step, Change, edits, submits, approves, rejects, locks, kept, stepped, born,
}
use brsr_v.Metrics.Refinement.{handle-refines}

module _ (𝓟 : Platform) where
  open 𝓟 use {get}

  -- a request with its tenant, its user and its time
  pub record Call : Type 0 where
    pub tenant : ℕ
    pub actor : ℕ
    pub now : ℕ
    pub request : Request 𝓟

  abbrev pub after_call : Db 𝓟 → Call → Db 𝓟
  after_call db c = (handle 𝓟 c.tenant c.actor c.now db c.request).0

  abbrev pub run : Db 𝓟 → List Call → Db 𝓟
  run db [] = db
  run db (c ∷ cs) = run (after_call db c) cs

  locked-Step :
      {db : Db 𝓟} {tenant actor now : ℕ} {e e' : Event (Number 𝓟)}
      → Step 𝓟 db tenant actor now e e'
      → e.status ≢ locked
  locked-Step {e = e} (edits dto p q) h = let k = ap is_editable (sym h) ∙ p in cc
  locked-Step (submits p) h = cc
  locked-Step (approves p q) h = cc
  locked-Step (rejects reason p) h = cc
  locked-Step (locks p) h = cc

  locked-Change :
      {db : Db 𝓟} {tenant actor now : ℕ} {o o' : Option (Event (Number 𝓟))} {e : Event (Number 𝓟)}
      → Change 𝓟 db tenant actor now o o'
      → o ≡ some e
      → e.status ≡ locked
      → o' ≡ some e
  locked-Change (kept p) h l = p ∙ h
  locked-Change (stepped {e = d} p q m s) h l = absurd (locked-Step s (cc))
  locked-Change (born dto p q a) h l = cc

  foreign-Change :
      {db : Db 𝓟} {tenant actor now : ℕ} {o o' : Option (Event (Number 𝓟))} {e : Event (Number 𝓟)}
      → Change 𝓟 db tenant actor now o o'
      → o ≡ some e
      → e.tenant ≢ tenant
      → o' ≡ some e
  foreign-Change (kept p) h l = p ∙ h
  foreign-Change (stepped {e = d} p q m s) h l = absurd (l (cc))
  foreign-Change (born dto p q a) h l = cc

  -- No sequence of requests, by whomever, changes or removes a locked event.
  pub run-locked :
      IsDatabase 𝓟
      → (db : Db 𝓟) (calls : List Call) (id : ℕ) {e : Event (Number 𝓟)} → get db.events id ≡ some e
      → e.status ≡ locked
      → get (run db calls).events id ≡ some e
  run-locked laws db [] id h l = h
  run-locked laws db (c ∷ cs) id h l =
      run-locked laws (after_call db c) cs id
        (locked-Change (handle-refines 𝓟 laws db c.tenant c.actor c.now c.request id) h l) l

  -- No sequence of requests of other tenants changes or removes an event of a tenant.
  pub run-foreign :
      IsDatabase 𝓟
      → (db : Db 𝓟) (calls : List Call) (id : ℕ) {e : Event (Number 𝓟)} → get db.events id ≡ some e
      → All (λ c. e.tenant ≢ c.tenant) calls
      → get (run db calls).events id ≡ some e
  run-foreign laws db [] id h l = h
  run-foreign laws db (c ∷ cs) id h (l, ls) =
      run-foreign laws (after_call db c) cs id
        (foreign-Change (handle-refines 𝓟 laws db c.tenant c.actor c.now c.request id) h l) ls
