-- ===== src/Metrics/Soundness.antt =====
-- Segregation of duties, and events at nodes of their own tenant, as an invariant of the requests to
-- metrics.service.ts.
use brsr_v.Prelude.{
  ℕ, ◌≡◌, ◌≢◌, refl, sym, ap, ◌∙◌, subst, ◌⊎◌, inl, inr, Bool, true, false, ◌||◌, Option, none,
  some, List, [], ◌∷◌, ◌==◌, ==_iff,
}
use brsr_v.Schema.{MetricStatus, Event, draft, submitted, reviewed, approved, rejected, locked}
use brsr_v.Platform.{Platform, Number, Db}
use brsr_v.Platform.Laws.{IsDatabase}
use brsr_v.Metrics.{or_else, is_owner, owns_node, scope_allowed}
use brsr_v.Metrics.Lifecycle.{
  Step, Change, edits, submits, approves, rejects, locks, kept, stepped, born,
}
use brsr_v.Metrics.Refinement.{handle-refines, handle-nodes}
use brsr_v.Metrics.History.{Call, after_call, run}

some-injective : {A : Type 0} {a b : A} → some a ≡ some b → a ≡ b
some-injective h = cc

or-inv : (a : Bool) {b : Bool} → (a || b) ≡ true → (a ≡ true) ⊎ (b ≡ true)
or-inv true h = inl refl
or-inv false h = inr h

module _ (𝓟 : Platform) where
  open 𝓟 use {get}

  -- Of an event with a status: one that was never approved names no approver, and an approved or
  -- locked one names an approver who is not its submitter.
  abbrev pub Signed : MetricStatus → Event (Number 𝓟) → Type 0
  Signed draft e = e.approved_by ≡ none
  Signed submitted e = e.approved_by ≡ none
  Signed approved e = (u : ℕ) × (e.approved_by ≡ some u) × (e.submitted_by ≢ u)
  Signed locked e = (u : ℕ) × (e.approved_by ≡ some u) × (e.submitted_by ≢ u)
  Signed reviewed e = ⊥
  Signed rejected e = ⊥

  -- An event that is signed, unless a calculation run made it, at a node of its own tenant.
  pub record IsWellFormed (db : Db 𝓟) (e : Event (Number 𝓟)) : Type 0 where
    pub signed : e.source_calc_run ≡ none → Signed e.status e
    pub in_tenant : owns_node 𝓟 db e.tenant e.scope_node ≡ true

  abbrev pub IsSound : Db 𝓟 → Type 0
  IsSound db = (id : ℕ) (e : Event (Number 𝓟)) → get db.events id ≡ some e → IsWellFormed db e

  Signed-same :
      (s : MetricStatus) (e e' : Event (Number 𝓟))
      → e'.approved_by ≡ e.approved_by
      → e'.submitted_by ≡ e.submitted_by
      → Signed s e
      → Signed s e'
  Signed-same draft e e' p q h = p ∙ h
  Signed-same submitted e e' p q h = p ∙ h
  Signed-same approved e e' p q (u, a, b) = (u, p ∙ a, λ k. b (sym q ∙ k))
  Signed-same locked e e' p q (u, a, b) = (u, p ∙ a, λ k. b (sym q ∙ k))
  Signed-same reviewed e e' p q h = absurd h
  Signed-same rejected e e' p q h = absurd h

  moved :
      (db : Db 𝓟) (tenant : ℕ) (e : Event (Number 𝓟)) (o : Option ℕ)
      → e.tenant ≡ tenant
      → scope_allowed 𝓟 db tenant e o ≡ true
      → owns_node 𝓟 db e.tenant e.scope_node ≡ true
      → owns_node 𝓟 db e.tenant (or_else o e.scope_node) ≡ true
  moved db tenant e none m p h = h
  moved db tenant e (some node) m p h = elim (or-inv (node == e.scope_node) p) [
    | inl q ↦ subst (λ n. owns_node 𝓟 db e.tenant n ≡ true) (sym ((==_iff node e.scope_node).0 q)) h
    | inr q ↦ subst (λ t. owns_node 𝓟 db t node ≡ true) (sym m) q
  ]

  Step-IsWellFormed :
      {db : Db 𝓟} {tenant actor now : ℕ} {e e' : Event (Number 𝓟)}
      → Step 𝓟 db tenant actor now e e'
      → e.tenant ≡ tenant
      → IsWellFormed db e
      → IsWellFormed db e'
  Step-IsWellFormed {db = db} {tenant = tenant} {e = e} (edits dto p q) m w = record {
    signed = λ k. Signed-same e.status e _ refl refl (w.signed k);
    in_tenant = moved db tenant e dto.scope_node m q w.in_tenant;
  }
  Step-IsWellFormed {e = e} (submits p) m w = record {
    signed = λ k. subst (λ s. Signed s e) p (w.signed k);
    in_tenant = w.in_tenant;
  }
  Step-IsWellFormed {actor = actor} {e = e} (approves p q) m w = record {
    signed = λ k. (actor, refl, q);
    in_tenant = w.in_tenant;
  }
  Step-IsWellFormed {e = e} (rejects reason p) m w = record {
    signed = λ k. subst (λ s. Signed s e) p (w.signed k);
    in_tenant = w.in_tenant;
  }
  Step-IsWellFormed {e = e} (locks p) m w = record {
    signed = λ k. subst (λ s. Signed s e) p (w.signed k);
    in_tenant = w.in_tenant;
  }

  Change-IsWellFormed :
      {db : Db 𝓟} {tenant actor now : ℕ} {o o' : Option (Event (Number 𝓟))} {e : Event (Number 𝓟)}
      → Change 𝓟 db tenant actor now o o'
      → ((d : Event (Number 𝓟)) → o ≡ some d → IsWellFormed db d)
      → o' ≡ some e
      → IsWellFormed db e
  Change-IsWellFormed {e = e} (kept p) w h = w e (sym p ∙ h)
  Change-IsWellFormed {db = db} (stepped {e = d} {e' = d'} p q m s) w h =
      subst (IsWellFormed db) (some-injective (sym q ∙ h)) (Step-IsWellFormed s m (w d p))
  Change-IsWellFormed {db = db} (born dto p q a) w h =
      subst (IsWellFormed db) (some-injective (sym q ∙ h))
        (record { signed = λ _. refl; in_tenant = a.owned })

  owns_node-same :
      (db db' : Db 𝓟) (tenant node : ℕ)
      → db'.nodes ≡ db.nodes
      → owns_node 𝓟 db tenant node ≡ true
      → owns_node 𝓟 db' tenant node ≡ true
  unfolding owns_node
  owns_node-same db db' tenant node p h = ap (λ t. is_owner 𝓟 tenant (get t node)) p ∙ h

  IsWellFormed-same :
      {db db' : Db 𝓟} (e : Event (Number 𝓟))
      → db'.nodes ≡ db.nodes
      → IsWellFormed db e
      → IsWellFormed db' e
  IsWellFormed-same {db = db} {db' = db'} e p w = record {
    signed = w.signed;
    in_tenant = owns_node-same db db' e.tenant e.scope_node p w.in_tenant;
  }

  -- Every sequence of requests keeps a database sound: an event that is approved or locked, and that
  -- no calculation run made, has an approver who is not its submitter, one that is neither has no
  -- approver, and every event stands at a node of its own tenant.
  pub run-IsSound :
      IsDatabase 𝓟 → (db : Db 𝓟) (calls : List (Call 𝓟)) → IsSound db → IsSound (run 𝓟 db calls)
  run-IsSound laws db [] w = w
  run-IsSound laws db (c ∷ cs) w = run-IsSound laws (after_call 𝓟 db c) cs λ id e h.
      IsWellFormed-same e (handle-nodes 𝓟 laws db c.tenant c.actor c.now c.request) (
        Change-IsWellFormed (handle-refines 𝓟 laws db c.tenant c.actor c.now c.request id) (w id) h)
