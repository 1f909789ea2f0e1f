-- ===== src/Controller/Status.antt =====
-- internal/controller/status_equality.go, and the statuses of api/v1 that it compares. A slice that
-- is nil and one that is empty are one list.
use cnpg_i_chronicle.Common.{
  ℕ, Bool, true, false, ◌&&◌, Option, none, some, List, [], ◌∷◌, ◌==◌, Text, text_eq,
}

-- metav1.Condition
pub record Condition : Type 0 where
  pub kind : Text
  pub status : Text
  pub observed_generation : ℕ
  pub last_transition_time : ℕ
  pub reason : Text
  pub message : Text

-- ResolvedStore of configstore_types.go
pub record ResolvedStore : Type 0 where
  pub destination_path : Text
  pub endpoint_url : Text
  pub provider : Text
  pub retention : Text
  pub capture_groups : List Text
  pub source : Text
  pub observed_at : Option ℕ

-- ConfigStoreStatus
pub record StoreStatus : Type 0 where
  pub resolved : Option ResolvedStore
  pub conditions : List Condition

-- reflect.DeepEqual of two conditions whose transition times were set to zero
unfoldable pub same_condition : Condition → Condition → Bool
same_condition a b =
    text_eq a.kind b.kind
    && (text_eq a.status b.status
        && (a.observed_generation == b.observed_generation
            && (text_eq a.reason b.reason && text_eq a.message b.message)))

-- equalConditions
unfoldable pub equal_conditions : List Condition → List Condition → Bool
equal_conditions [] [] = true
equal_conditions (a ∷ left) (b ∷ right) = same_condition a b && equal_conditions left right
equal_conditions _ _ = false

abbrev pub same_texts : List Text → List Text → Bool
same_texts [] [] = true
same_texts (s ∷ ss) (t ∷ ts) = text_eq s t && same_texts ss ts
same_texts _ _ = false

-- reflect.DeepEqual of two resolutions whose moments were set to nil
unfoldable pub same_resolved : ResolvedStore → ResolvedStore → Bool
same_resolved a b =
    text_eq a.destination_path b.destination_path
    && (text_eq a.endpoint_url b.endpoint_url
        && (text_eq a.provider b.provider
            && (text_eq a.retention b.retention
                && (same_texts a.capture_groups b.capture_groups && text_eq a.source b.source))))

abbrev pub equal_resolved : Option ResolvedStore → Option ResolvedStore → Bool
equal_resolved none none = true
equal_resolved (some a) (some b) = same_resolved a b
equal_resolved _ _ = false

-- equalStatus
unfoldable pub equal_status : StoreStatus → StoreStatus → Bool
equal_status a b =
    equal_conditions a.conditions b.conditions && equal_resolved a.resolved b.resolved
