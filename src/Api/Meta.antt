-- ===== src/Api/Meta.antt =====
-- metav1.ObjectMeta and metav1.Condition (the fields that the sources read) and shared.Resource.
use lifecycle_manager.Prelude.{
  ℕ, String, str_eq, Bool, true, false, List, Option, none, some, lookup, is_some,
}

-- A nil map is the empty one, and a nil deletion timestamp is `none`. Times are in seconds.
pub record ObjectMeta : Type 0 where
  pub name : String
  pub namespace : String
  pub generation : ℕ
  pub creation_timestamp : ℕ
  pub deletion_timestamp : Option ℕ
  pub labels : List (String × String)
  pub annotations : List (String × String)
  pub finalizers : List String

-- !GetDeletionTimestamp().IsZero()
abbrev pub is_deleting : ObjectMeta → Bool
is_deleting m = is_some m.deletion_timestamp

-- m[key] == value, where a missing key reads as the empty string.
abbrev pub has_entry : String → String → List (String × String) → Bool
has_entry key value m = elim (lookup key m) [ none ↦ false | some v ↦ str_eq v value ]

pub data ConditionStatus : Type 0 where
  condition_true condition_false condition_unknown : ConditionStatus

abbrev pub is_condition_true : ConditionStatus → Bool
is_condition_true condition_true = true
is_condition_true condition_false = false
is_condition_true condition_unknown = false

pub record Condition : Type 0 where
  pub condition_type : String
  pub reason : String
  pub status : ConditionStatus
  pub message : String
  pub observed_generation : ℕ

-- What the sources call of controller-runtime (controllerutil, on the finalizers of an object; the
-- Boolean tells whether the list has changed) and of apimachinery (meta, on a list of conditions).
pub record Machinery : Type 0 where
  pub contains_finalizer : ObjectMeta → String → Bool
  pub add_finalizer : ObjectMeta → String → ObjectMeta × Bool
  pub remove_finalizer : ObjectMeta → String → ObjectMeta × Bool
  pub find_status_condition : List Condition → String → Option Condition
  pub set_status_condition : List Condition → Condition → List Condition

-- shared.Resource. Its ID joins the same five texts.
pub record Resource : Type 0 where
  pub group : String
  pub version : String
  pub kind : String
  pub name : String
  pub namespace : String
