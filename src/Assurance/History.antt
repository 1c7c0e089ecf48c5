-- ===== src/Assurance/History.antt =====
-- What sequences of requests do to the exceptions of snapshots.
use brsr_v.Prelude.{
  ℕ, ◌≡◌, ◌≢◌, refl, sym, ap, ◌∙◌, subst, inl, inr, Bool, true, false, not, ◌&&◌, Option, none,
  some, List, [], ◌∷◌, ◌==◌, ==_iff, ==-ne, Bool-cases, if◌then◌else◌, arith,
}
use brsr_v.Schema.{AssuranceSnapshot, AuditException, ExceptionSeverity, ExceptionStatus}
use brsr_v.Platform.{Platform, Db}
use brsr_v.Platform.Laws.{IsDatabase}
use brsr_v.Audit.{AuditLogInput, audit_row, log}
use brsr_v.Metrics.{or_else}
use brsr_v.Assurance.{find_snapshot, has_source}
use brsr_v.Assurance.Exceptions.{
  CreateExceptionDto, RespondExceptionDto, status_of, to_responded, is_closed, new_exception,
  store_exception, severity_of, raise_on, raise_named, create_exception, of_snapshot, with_snapshot,
  find_exception, answered, respond_found, respond_exception,
}

pub data ExceptionCall : Type 0 where
  raise_call : ℕ → CreateExceptionDto → ℕ → ExceptionCall
  respond_call : ℕ → ℕ → RespondExceptionDto → ℕ → ℕ → ExceptionCall

-- A closed exception has the time of its closing, and no other has one.
unfoldable pub IsStamped : AuditException → Type 0
IsStamped e = is_closed e.status ≡ has_source e.closed_at

-- What does not change of an exception: what was raised, and that it is closed.
pub record Keeps (e e' : AuditException) : Type 0 where
  pub same_snapshot : e'.snapshot ≡ e.snapshot
  pub same_event : e'.metric_event ≡ e.metric_event
  pub same_severity : e'.severity ≡ e.severity
  pub same_description : e'.description ≡ e.description
  pub same_raiser : e'.raised_by ≡ e.raised_by
  pub closed_stays : is_closed e.status ≡ true → is_closed e'.status ≡ true
  pub stamped_stays : IsStamped e → IsStamped e'

module _ (𝓟 : Platform) where
  open 𝓟 use {Rows, get, put, create, takes}

  unfoldable pub handle_exception : Db 𝓟 → ExceptionCall → Db 𝓟
  handle_exception db (raise_call tenant dto actor) = (create_exception 𝓟 db tenant dto actor).0
  handle_exception db (respond_call tenant id dto actor now) =
      (respond_exception 𝓟 db tenant id dto actor now).0

  unfoldable pub run_exceptions : Db 𝓟 → List ExceptionCall → Db 𝓟
  unfolding handle_exception
  run_exceptions db [] = db
  run_exceptions db (c ∷ cs) = run_exceptions (handle_exception db c) cs

  log_exceptions : (i : AuditLogInput 𝓟) (db : Db 𝓟) → (log 𝓟 i db).exceptions ≡ db.exceptions
  unfolding log
  log_exceptions i db = elim (Bool-cases (takes (audit_row 𝓟 i))) [
    | inl p ↦ rw p refl
    | inr p ↦ rw p refl
  ]

  -- What a request may do to the table of exceptions.
  data Changed (t : Rows AuditException) : Rows AuditException → Type 0 where
    unchanged : (u : Rows AuditException) → u ≡ t → Changed t u
    added : (u : Rows AuditException) (e : AuditException) → u ≡ (create t e).1 → Changed t u
    updated :
        (u : Rows AuditException) (id : ℕ) (e e' : AuditException)
        → get t id ≡ some e
        → Keeps e e'
        → u ≡ put t id e'
        → Changed t u

  store_exception-Changed :
      (db : Db 𝓟) (tenant snapshot : ℕ) (dto : CreateExceptionDto) (actor : ℕ)
      (o : Option ExceptionSeverity)
      → Changed db.exceptions (store_exception 𝓟 db tenant snapshot dto actor o).0.exceptions
  unfolding store_exception
  store_exception-Changed db tenant snapshot dto actor none = unchanged _ refl
  store_exception-Changed db tenant snapshot dto actor (some severity) =
      added _ (new_exception 𝓟 snapshot dto severity actor) (log_exceptions _ _)

  raise_named-Changed :
      (db : Db 𝓟) (tenant : ℕ) (dto : CreateExceptionDto) (actor : ℕ) (o : Option ℕ)
      → Changed db.exceptions (raise_named 𝓟 db tenant dto actor o).0.exceptions
  unfolding raise_named raise_on
  raise_named-Changed db tenant dto actor none = unchanged _ refl
  raise_named-Changed db tenant dto actor (some s) = found (find_snapshot 𝓟 db tenant s)
    where
      found :
          (o : Option AssuranceSnapshot)
          → Changed db.exceptions (raise_on 𝓟 db tenant s dto actor o).0.exceptions
      found none = unchanged _ refl
      found (some row) = store_exception-Changed db tenant s dto actor (severity_of 𝓟 dto.severity)

  answered-Keeps :
      (before : AuditException) (dto : RespondExceptionDto) (status : ExceptionStatus) (now : ℕ)
      → (is_closed before.status && not (is_closed status)) ≡ false
      → Keeps before (answered 𝓟 before dto status now)
  unfolding IsStamped
  answered-Keeps before dto status now h = record {
    same_snapshot = refl;
    same_event = refl;
    same_severity = refl;
    same_description = refl;
    same_raiser = refl;
    closed_stays = λ c. ground (arith, h);
    stamped_stays = λ c. stamped (is_closed before.status) (is_closed status) h c;
  }
    where
      stamped :
          (b c : Bool)
          → (b && not c) ≡ false
          → b ≡ has_source before.closed_at
          → c ≡ has_source (if c then some now else before.closed_at)
      stamped b true h e = refl
      stamped false false h e = e
      stamped true false h e = cc

  respond_found-Changed :
      (db : Db 𝓟) (tenant id : ℕ) (dto : RespondExceptionDto) (actor now : ℕ)
      (o : Option AuditException)
      → ((e : AuditException) → o ≡ some e → get db.exceptions id ≡ some e)
      → Changed db.exceptions (respond_found 𝓟 db tenant id dto actor now o).0.exceptions
  unfolding respond_found
  respond_found-Changed db tenant id dto actor now none there = unchanged _ refl
  respond_found-Changed db tenant id dto actor now (some before) there =
      elim (Bool-cases (
        is_closed before.status && not (is_closed (status_of (or_else dto.status to_responded))))) [
          | inl h ↦ rw h (unchanged _ refl)
          | inr h ↦ rw h (
              updated _ id before
                (answered 𝓟 before dto (status_of (or_else dto.status to_responded)) now)
                (there before refl) (answered-Keeps before dto _ now h) (log_exceptions _ _))
        ]

  find_exception_there :
      (db : Db 𝓟) (tenant id : ℕ) (e : AuditException)
      → find_exception 𝓟 db tenant id ≡ some e
      → get db.exceptions id ≡ some e
  unfolding find_exception
  find_exception_there db tenant id e = there (get db.exceptions id)
    where
      owned :
          (e₀ : AuditException) (o : Option AssuranceSnapshot)
          → of_snapshot 𝓟 e₀ o ≡ some e
          → some e₀ ≡ some e
      owned e₀ none h = cc
      owned e₀ (some s) h = h

      there : (o : Option AuditException) → with_snapshot 𝓟 db tenant o ≡ some e → o ≡ some e
      there none h = cc
      there (some e₀) h = owned e₀ (find_snapshot 𝓟 db tenant e₀.snapshot) h

  handle_exception-Changed :
      (db : Db 𝓟) (c : ExceptionCall) → Changed db.exceptions (handle_exception db c).exceptions
  unfolding handle_exception create_exception respond_exception
  handle_exception-Changed db (raise_call tenant dto actor) =
      raise_named-Changed db tenant dto actor dto.snapshot
  handle_exception-Changed db (respond_call tenant id dto actor now) =
      respond_found-Changed db tenant id dto actor now (find_exception 𝓟 db tenant id)
        (λ e h. find_exception_there db tenant id e h)

  Keeps-refl : (e : AuditException) → Keeps e e
  Keeps-refl e = record {
    same_snapshot = refl;
    same_event = refl;
    same_severity = refl;
    same_description = refl;
    same_raiser = refl;
    closed_stays = λ c. c;
    stamped_stays = λ c. c;
  }

  Keeps-trans : (a b c : AuditException) → Keeps a b → Keeps b c → Keeps a c
  Keeps-trans a b c k l = record {
    same_snapshot = l.same_snapshot ∙ k.same_snapshot;
    same_event = l.same_event ∙ k.same_event;
    same_severity = l.same_severity ∙ k.same_severity;
    same_description = l.same_description ∙ k.same_description;
    same_raiser = l.same_raiser ∙ k.same_raiser;
    closed_stays = λ h. l.closed_stays (k.closed_stays h);
    stamped_stays = λ h. l.stamped_stays (k.stamped_stays h);
  }

  module _ (laws : IsDatabase 𝓟) where
    Changed-Keeps :
        (t u : Rows AuditException) (id : ℕ) (e : AuditException)
        → Changed t u
        → get t id ≡ some e
        → (e' : AuditException) × (get u id ≡ some e') × Keeps e e'
    Changed-Keeps t u id e (unchanged _ same) h = (e, ap (λ t. get t id) same ∙ h, Keeps-refl e)
    Changed-Keeps t u id e (added _ row same) h =
        (e, ap (λ t. get t id) same ∙ laws.get-create_other t row id fresh ∙ h, Keeps-refl e)
      where
        none_some : none ≢ some e
        none_some k = cc

        fresh : (create t row).0 ≢ id
        fresh eq = none_some (sym (laws.create_fresh t row) ∙ ap (get t) eq ∙ h)
    Changed-Keeps t u id e (updated _ j b b' there keeps same) h = elim (Bool-cases (j == id)) [
      | inl eq ↦ (
        b',
        ap (λ t. get t id) same
            ∙ ap (λ i. get (put t j b') i) (sym ((==_iff j id).0 eq))
            ∙ laws.get-put t j b b' there,
        subst (λ b. Keeps b b') (inj (sym there ∙ ap (get t) ((==_iff j id).0 eq) ∙ h)) keeps,
      )
      | inr ne ↦ (
        e,
        ap (λ t. get t id) same ∙ laws.get-put_other t j id b' (==-ne j id ne) ∙ h,
        Keeps-refl e,
      )
    ]
      where
        inj : some b ≡ some e → b ≡ e
        inj k = cc

    -- Whatever requests come, an exception stays on its snapshot with its metric event, severity,
    -- description and raiser, and once closed it stays closed; where it had the time of its closing
    -- exactly if it was closed, so it has at the end.
    pub run_exceptions-Keeps :
        (cs : List ExceptionCall) (db : Db 𝓟) (id : ℕ) (e : AuditException)
        → get db.exceptions id ≡ some e
        → (e' : AuditException) × (get (run_exceptions db cs).exceptions id ≡ some e') × Keeps e e'
    unfolding run_exceptions
    run_exceptions-Keeps [] db id e h = (e, h, Keeps-refl e)
    run_exceptions-Keeps (c ∷ cs) db id e h =
        let (e₁, h₁, k₁) = Changed-Keeps _ _ id e (handle_exception-Changed db c) h in
        let (e₂, h₂, k₂) = run_exceptions-Keeps cs (handle_exception db c) id e₁ h₁ in
        (e₂, h₂, Keeps-trans e e₁ e₂ k₁ k₂)
