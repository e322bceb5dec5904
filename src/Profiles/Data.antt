-- ===== src/Profiles/Data.antt =====
-- The types of src/features/projects/project-profile.ts.
use coredot_editor.Prelude.{ℕ, Bool, List, Option, Text}

-- A limit that a profile states, any number of JavaScript: natural, below zero, between `fraction n`
-- and the next natural number, NaN, or infinite.
pub data Cap : Type 0 where
  exactly : ℕ → Cap
  below_zero : Cap
  fraction : ℕ → Cap
  nan infinite : Cap

pub data FieldType : Type 0 where
  boolean date number select tags text : FieldType

pub record Labels : Type 0 where
  pub en : Text
  pub ko : Text

-- ProjectMetadataField, and its part ProjectMetadataContractField
pub record Field : Type 0 where
  pub filterable : Bool
  pub id : Text
  pub item_max_length : Option Cap
  pub labels : Labels
  pub max_items : Option Cap
  pub max_length : Option Cap
  pub options : Option (List Text)
  pub required : Bool
  pub type : FieldType

-- ProjectReadinessState
pub record ReadinessState : Type 0 where
  pub id : Text
  pub labels : Labels
  pub transitions : List Text

-- ProjectProfile
pub record Profile : Type 0 where
  pub default_template_ids : List Text
  pub id : Text
  pub labels : Labels
  pub metadata_fields : List Field
  pub readiness : List ReadinessState

-- An item of an array: a string, or another value.
pub data Item : Type 0 where
  word : Text → Item
  other : ℕ → Item

-- DocumentMetadataValue. A finite number is the one of its name.
pub data Value : Type 0 where
  null not_a_number : Value
  truth : Bool → Value
  finite : ℕ → Value
  infinity : Bool → Value
  string : Text → Value
  array : List Item → Value

-- DocumentMetadata: each key once.
abbrev pub Metadata : Type 0
Metadata = List (Text × Value)

-- The reasons of ProjectMetadataValidationResult.
pub data Reason : Type 0 where
  invalid_length invalid_option invalid_type required unknown_field : Reason

-- ProjectProfileViolation
pub data Violation : Type 0 where
  of_field : Text → Reason → Violation
  invalid_readiness_transition : Text → Text → Violation
