-- ===== src/Audit.antt =====
-- `AuditService.log` (services/api/src/audit/audit.service.ts).
pub mod Merkle
use brsr_v.Prelude.{
  ℕ, ◌-◌, ◌&&◌, Option, List, [], ◌∷◌, Text, text_eq, codes, leb, if◌then◌else◌, map,
}
use brsr_v.Schema.{
  Audited, AuditAction, AuditRow, create, update, delete, approve, reject, lock, unlock, export,
  login, impersonate, sign, extract, override,
}
use brsr_v.Platform.{Platform, Db, Number}

-- `validActions`
abbrev pub valid_actions : List (Text × AuditAction)
valid_actions =
    (codes "CREATE", create)
    ∷ (codes "UPDATE", update)
    ∷ (codes "DELETE", delete)
    ∷ (codes "APPROVE", approve)
    ∷ (codes "REJECT", reject)
    ∷ (codes "LOCK", lock)
    ∷ (codes "UNLOCK", unlock)
    ∷ (codes "EXPORT", export)
    ∷ (codes "LOGIN", login)
    ∷ (codes "IMPERSONATE", impersonate)
    ∷ (codes "SIGN", sign)
    ∷ (codes "EXTRACT", extract)
    ∷ (codes "OVERRIDE", override)
    ∷ []

-- `toUpperCase` on ASCII letters
abbrev pub upper : ℕ → ℕ
upper c = if leb b'a' c && leb c b'z' then c - 32 else c

unfoldable pub action_named : Text → List (Text × AuditAction) → AuditAction
unfolding text_eq
action_named s [] = update
action_named s ((t, a) ∷ ts) = let rest = action_named s ts in if text_eq s t then a else rest

unfoldable pub normalised_action : Text → AuditAction
unfolding action_named
normalised_action [] = update
normalised_action (c ∷ s) = action_named (map upper (c ∷ s)) valid_actions

module _ (𝓟 : Platform) where
  open 𝓟 use {takes}

  pub record AuditLogInput : Type 0 where
    pub tenant : ℕ
    pub user : ℕ
    pub entity : Text
    pub entity_id : Option ℕ
    pub action : Text
    pub before : Option (Audited (Number 𝓟))
    pub after : Option (Audited (Number 𝓟))

  abbrev pub audit_row : AuditLogInput → AuditRow (Number 𝓟)
  unfolding normalised_action
  audit_row input = record {
    tenant = input.tenant;
    actor = input.user;
    entity_type = input.entity;
    entity_id = input.entity_id;
    action = normalised_action input.action;
    before = input.before;
    after = input.after;
  }

  -- A row that the database does not take is dropped: the error is only logged.
  unfoldable pub log : AuditLogInput → Db 𝓟 → Db 𝓟
  log input db =
      if takes (audit_row input) then record db { audit = audit_row input ∷ db.audit } else db
