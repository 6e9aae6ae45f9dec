-- ===== src/Session/Ledger.antt =====
-- The loop that updates a ledger: what it keeps of each entry, and when it finds an action.
use android_appsec_assessor.Prelude.{
  String, Bool, true, ◌≡◌, refl, none, List, [], ◌∷◌, map, any, all, arith, ◌=ₛ◌, not, ◌≢◌,
}
use android_appsec_assessor.Json.{Fields}
use android_appsec_assessor.Session.{
  CleanupActionType, CleanupAction, is_settled, is_pending, is_pending-eq-not-is_settled,
}
use android_appsec_assessor.Session.Repository.{update_matching}

-- What no update changes of an action.
pub record Entry : Type 0 where
  pub action_id : String
  pub action_type : CleanupActionType
  pub payload : Fields

abbrev pub entry : CleanupAction → Entry
entry a = record { action_id = a.action_id; action_type = a.action_type; payload = a.payload }

-- The ledger has an action of this identifier.
abbrev pub has_entry : String → List Entry → Bool
has_entry k = any (λ (e : Entry). e.action_id =ₛ k)

module _ (k : String) (change : CleanupAction → CleanupAction) where
  -- An update that keeps each entry keeps the ledger's entries, their number and order.
  pub entries-update_matching :
      (keeps : (a : CleanupAction) → entry (change a) ≡ entry a) (actions : List CleanupAction)
      → map entry (update_matching k change actions).1 ≡ map entry actions
  unfolding update_matching
  entries-update_matching keeps [] = refl
  entries-update_matching keeps (a ∷ rest) =
      ground (arith, keeps a, entries-update_matching keeps rest)

  -- An action that the ledger has is found.
  pub update_matching-ne-none :
      (actions : List CleanupAction)
      → has_entry k (map entry actions) ≡ true
      → (update_matching k change actions).0 ≢ none
  unfolding update_matching
  update_matching-ne-none [] h = cc
  update_matching-ne-none (a ∷ rest) h = ground (arith, update_matching-ne-none rest)

-- All settled and none pending are the same test on a ledger.
pub settled-eq-not-pending :
    (actions : List CleanupAction)
    → all (λ a. is_settled a.status) actions ≡ not (any (λ a. is_pending a.status) actions)
settled-eq-not-pending [] = refl
settled-eq-not-pending (a ∷ rest) =
    ground (arith, settled-eq-not-pending rest, is_pending-eq-not-is_settled a.status)
