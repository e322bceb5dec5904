-- ===== src/Profiles/Defaults.antt =====
-- src/features/projects/default-project-profiles.ts and active-project-profile.ts: the profiles of the
-- program and their registry.
use coredot_editor.Prelude.{
  Bool, true, false, List, [], ◌∷◌, ◌++◌, Option, none, some, Text, Text-discrete, codes, get,
  insert, text_key, if◌then◌else◌, holds, is_some,
}
use coredot_editor.Prelude.Result.{Result, ok, err}
use coredot_editor.Profiles.Texts.{trim, is_empty}
use coredot_editor.Profiles.Data.{
  Field, FieldType, date, select, tags, text, Labels, ReadinessState, Profile,
}
use coredot_editor.Profiles.Defining.{member, draft}

abbrev pub labels : Text → Text → Labels
labels english korean = record { en = english; ko = korean }

abbrev pub filter_field : Text → Labels → FieldType → Option (List Text) → Field
filter_field name shown kind options = record {
  filterable = true;
  id = name;
  item_max_length = none;
  labels = shown;
  max_items = none;
  max_length = none;
  options = options;
  required = false;
  type = kind;
}

-- commonMetadataFields
abbrev pub common_metadata_fields : List Field
common_metadata_fields =
    filter_field (codes "owner") (labels (codes "Owner") (codes "소유자")) text none
    ∷ filter_field (codes "dueDate") (labels (codes "Due date") (codes "기한")) date none
    ∷ filter_field (codes "category") (labels (codes "Category") (codes "분류")) text none
    ∷ filter_field (codes "tags") (labels (codes "Tags") (codes "태그")) tags none
    ∷ []

abbrev pub needs_review : Text
needs_review = codes "needs_review"

abbrev pub ready : Text
ready = codes "ready"

abbrev pub approved : Text
approved = codes "approved"

-- readinessOrder
abbrev pub readiness_order : List Text
readiness_order = draft ∷ needs_review ∷ ready ∷ approved ∷ []

-- progressiveTransitions
abbrev pub progressive_transitions : List (Text × List Text)
progressive_transitions =
    (approved, ready ∷ [])
    ∷ (draft, needs_review ∷ [])
    ∷ (needs_review, draft ∷ ready ∷ [])
    ∷ (ready, needs_review ∷ approved ∷ [])
    ∷ []

abbrev pub without_text : Text → List Text → List Text
without_text t [] = []
without_text t (s ∷ ss) =
    let rest = without_text t ss in if holds (Text-discrete s t) then rest else s ∷ rest

-- `transitions?.[id] ?? readinessOrder.filter((candidate) => candidate !== id)`
abbrev pub transitions_of : Option (List (Text × List Text)) → Text → List Text
transitions_of none id = without_text id readiness_order
transitions_of (some transitions) id = elim (get id transitions) [
  | none ↦ without_text id readiness_order
  | some next ↦ next
]

abbrev pub state : Option (List (Text × List Text)) → Text → Text → Text → ReadinessState
state transitions id english korean = record {
  id = id;
  labels = labels english korean;
  transitions = transitions_of transitions id;
}

-- createReadiness
abbrev pub create_readiness :
    Text → Text → Text → Text → Option (List (Text × List Text)) → List ReadinessState
create_readiness a b c d transitions =
    state transitions draft (codes "Draft") a
    ∷ state transitions needs_review (codes "Needs review") b
    ∷ state transitions ready (codes "Ready") c
    ∷ state transitions approved (codes "Approved") d
    ∷ []

abbrev pub default_profile : Profile
default_profile = record {
  default_template_ids = codes "tpl_strategy_review" ∷ [];
  id = codes "default";
  labels = labels (codes "General documents") (codes "일반 문서");
  metadata_fields = common_metadata_fields;
  readiness = create_readiness (codes "초안") (codes "검토 필요") (codes "준비 완료") (codes "승인됨") none;
}

abbrev pub legal_review : Profile
legal_review = record {
  default_template_ids = codes "tpl_contract_review" ∷ [];
  id = codes "legal-review";
  labels = labels (codes "Legal review") (codes "법률 검토");
  metadata_fields =
      common_metadata_fields
      ++ filter_field (codes "counterparty") (labels (codes "Counterparty") (codes "상대방")) text none
        ∷ filter_field (codes "agreementType") (labels (codes "Agreement type") (codes "계약 유형"))
            text none
        ∷ [];
  readiness =
      create_readiness (codes "초안") (codes "법무 검토 필요") (codes "서명 준비") (codes "승인됨")
        (some progressive_transitions);
}

abbrev pub research_writing : Profile
research_writing = record {
  default_template_ids = codes "tpl_market_research" ∷ [];
  id = codes "research-writing";
  labels = labels (codes "Research writing") (codes "리서치 작성");
  metadata_fields =
      common_metadata_fields
      ++ filter_field (codes "researchQuestion")
          (labels (codes "Research question") (codes "연구 질문")) text none
        ∷ filter_field (codes "evidenceStatus") (labels (codes "Evidence status") (codes "근거 상태"))
            select (some (codes "missing" ∷ codes "partial" ∷ codes "verified" ∷ []))
        ∷ [];
  readiness =
      create_readiness (codes "초안") (codes "근거 검토 필요") (codes "출판 준비") (codes "승인됨")
        (some progressive_transitions);
}

-- defaultProjectProfiles
abbrev pub default_project_profiles : List Profile
default_project_profiles = default_profile ∷ legal_review ∷ research_writing ∷ []

-- builtinTemplateKeys
abbrev pub builtin_template_keys : List Text
builtin_template_keys =
    codes "tpl_strategy_review"
    ∷ codes "tpl_executive_rewrite"
    ∷ codes "tpl_market_research"
    ∷ codes "tpl_contract_review"
    ∷ []

pub data RegistryError : Type 0 where
  duplicate_profile unknown_template : RegistryError

abbrev pub all_known : List Text → List Text → Bool
all_known known [] = true
all_known known (t ∷ ts) = if member t known then all_known known ts else false

-- createProjectProfileRegistry: the loop, with the registry so far
unfoldable pub register :
    List Text → List Profile → List (Text × Profile) → Result RegistryError (List (Text × Profile))
register known [] registry = ok registry
register known (profile ∷ profiles) registry =
    let next = register known profiles (insert profile.id profile registry) in
    if is_some (get profile.id registry)
    then err duplicate_profile
    else if all_known known profile.default_template_ids
    then next
    else err unknown_template

unfoldable pub create_project_profile_registry :
    List Profile → List Text → Result RegistryError (List (Text × Profile))
create_project_profile_registry profiles known = register known profiles []

-- getProjectProfile: `none` is the error of an unknown id.
unfoldable pub get_project_profile : List (Text × Profile) → Text → Option Profile
get_project_profile registry id = get id registry

-- resolveActiveProjectProfile, with the variable of the environment
unfoldable pub resolve_active_project_profile : List (Text × Profile) → Option Text → Option Profile
resolve_active_project_profile registry none = get_project_profile registry (codes "default")
resolve_active_project_profile registry (some variable) =
    get_project_profile registry
      (if is_empty (trim variable) then codes "default" else trim variable)
