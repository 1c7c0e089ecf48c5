-- ===== src/Metrics/Editing.antt =====
-- What metrics.service.ts lets a user do to an event that still can be edited.
use brsr_v.Prelude.{
  ℕ, ◌≡◌, ◌≢◌, ap, ◌∙◌, true, not, Option, none, some, [], ◌∷◌, Text, ==_iff, ==-ne_false,
  if◌then◌else◌,
}
use brsr_v.Schema.{Event, submitted, approved}
use brsr_v.Platform.{Platform, Number, Db}
use brsr_v.Platform.Laws.{IsDatabase}
use brsr_v.Metrics.{
  UpdateMetricEventDto, edited, is_editable, find_one, of_tenant, save, handle, update_event,
  approve, update_one, approve_one, is_submitted, event_entry,
}
use brsr_v.Metrics.Refinement.{log-keeps}
use brsr_v.Metrics.History.{run}

module _ (𝓟 : Platform) where
  open 𝓟 use {get, put}

  -- an update of the value and the period alone
  abbrev pub revalued : Option (Number 𝓟) → Option ℕ → Option ℕ → UpdateMetricEventDto 𝓟
  revalued value start end = record {
    scope_node = none;
    period_start = start;
    period_end = end;
    value = value;
    unit = none;
    notes = none;
    metadata = none;
  }

  find_one-get :
      (db : Db 𝓟) (tenant id : ℕ) (e : Event (Number 𝓟))
      → get db.events id ≡ some e
      → e.tenant ≡ tenant
      → find_one 𝓟 db tenant id ≡ some e
  unfolding find_one
  find_one-get db tenant id e h m =
      ap (of_tenant 𝓟 tenant) h
      ∙ ap (λ b. if b then some e else none) ((==_iff e.tenant tenant).1 m)

  get-save :
      IsDatabase 𝓟
      → (db : Db 𝓟) (tenant actor : ℕ) (action : Text) (id : ℕ) (e e' : Event (Number 𝓟))
      → get db.events id ≡ some e
      → get (save 𝓟 db tenant actor action id e e').0.events id ≡ some e'
  unfolding save
  get-save laws db tenant actor action id e e' h =
      ap (λ t. get t id)
        (log-keeps 𝓟 (event_entry 𝓟 tenant actor action id (some e) e')
          (record db { events = put db.events id e' })).0
      ∙ laws.get-put db.events id e e' h

  get-update :
      IsDatabase 𝓟
      → (db : Db 𝓟) (tenant actor now id : ℕ) (e : Event (Number 𝓟))
      → (v : Option (Number 𝓟)) (start end : Option ℕ) → get db.events id ≡ some e
      → e.tenant ≡ tenant
      → is_editable e.status ≡ true
      → get (handle 𝓟 tenant actor now db (update_one id (revalued v start end))).0.events id
        ≡ some (edited 𝓟 e (revalued v start end))
  unfolding handle update_event
  get-update laws db tenant actor now id e v start end h m p =
      rw (find_one-get db tenant id e h m) (rw p (get-save laws db tenant actor _ id e _ h))

  get-approve :
      IsDatabase 𝓟
      → (db : Db 𝓟) (tenant actor now id : ℕ) (e : Event (Number 𝓟)) → get db.events id ≡ some e
      → e.tenant ≡ tenant
      → e.status ≡ submitted
      → e.submitted_by ≢ actor
      → get (handle 𝓟 tenant actor now db (approve_one id)).0.events id
        ≡ some (record e { status = approved; approved_at = some now; approved_by = some actor })
  unfolding handle approve
  get-approve laws db tenant actor now id e h m p q = rw (find_one-get db tenant id e h m) (
      rw (ap (λ s. not (is_submitted s)) p)
        (rw (==-ne_false e.submitted_by actor q) (get-save laws db tenant actor _ id e _ h)))

  -- An update of an event of the tenant that is a draft or submitted stores any period that it
  -- names, also one that ends before it starts.
  pub update-period :
      IsDatabase 𝓟
      → (db : Db 𝓟) (tenant actor now id start end : ℕ) (e : Event (Number 𝓟))
      → get db.events id ≡ some e
      → e.tenant ≡ tenant
      → is_editable e.status ≡ true
      → get
          (handle 𝓟 tenant actor now db
            (update_one id (revalued none (some start) (some end)))).0.events
          id
        ≡ some (record e { period_start = start; period_end = end })
  update-period laws db tenant actor now id start end e h m p =
      get-update laws db tenant actor now id e none (some start) (some end) h m p

  -- A user who did not submit a submitted event of the tenant can give it any value and then approve
  -- it: the event ends approved by that user with that value.
  pub update-then_approve :
      IsDatabase 𝓟
      → (db : Db 𝓟) (tenant actor now id : ℕ) (v : Number 𝓟) (e : Event (Number 𝓟))
      → get db.events id ≡ some e
      → e.tenant ≡ tenant
      → e.status ≡ submitted
      → e.submitted_by ≢ actor
      → get
          (run 𝓟 db (
            record {
              tenant = tenant;
              actor = actor;
              now = now;
              request = update_one id (revalued (some v) none none);
            }
            ∷ record { tenant = tenant; actor = actor; now = now; request = approve_one id }
            ∷ [])).events
          id
        ≡ some (record e {
          value = v;
          status = approved;
          approved_at = some now;
          approved_by = some actor;
        })
  update-then_approve laws db tenant actor now id v e h m p q =
      get-approve laws _ tenant actor now id (record e { value = v })
        (get-update laws db tenant actor now id e (some v) none none h m (ap is_editable p)) m p q
