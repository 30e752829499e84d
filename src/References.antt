-- ===== src/References.antt =====
-- packages/core/src/openapi/projection/reference-graph.ts: references to components, and the graph
-- of the references between the components of a document. The closure of a set of roots in that
-- graph is in the child Closure. Values are trees: `seen` never stops the walk. `Object.keys(…)`
-- is not sorted where the references found become a sorted set in the end.
pub mod Tokens
pub mod Closure
pub mod Tests
use openapi_to.Common.{
  text_equality, nat_equality, Text, text, Bool, true, false, not, Option, none, some, List, [],
  ◌∷◌, ◌++◌, contains, map, decode_uri_component, replace_unit, replace_pair, text_eq, nat_eq,
  starts_with, find, sort, text_le, sorted_set, length,
}
use openapi_to.Common.Json.{
  Json, str, arr, obj, Items, nil, item, items, Fields, end, field, keys, property, record_of,
  string_of,
}
use openapi_to.Common.Dictionary.{get, put}

pub data ComponentGroup : Type 0 where
  schemas parameters request_bodies responses headers security_schemes callbacks links examples :
      ComponentGroup

abbrev pub openapi_component_groups : List ComponentGroup
openapi_component_groups =
    schemas ∷ parameters ∷ request_bodies ∷ responses ∷ headers ∷ security_schemes ∷ callbacks
    ∷ links ∷ examples ∷ []

-- The string that a group is in the source.
unfoldable pub group_text : ComponentGroup → Text
group_text schemas = text "schemas"
group_text parameters = text "parameters"
group_text request_bodies = text "requestBodies"
group_text responses = text "responses"
group_text headers = text "headers"
group_text security_schemes = text "securitySchemes"
group_text callbacks = text "callbacks"
group_text links = text "links"
group_text examples = text "examples"

pub record ReferenceKey : Type 0 where
  pub group : ComponentGroup
  pub name : Text
  pub ref : Text

-- `none` is the exception of `decodeURIComponent`.
unfoldable pub decode_pointer_token : Text → Option Text
decode_pointer_token value = elim (decode_uri_component value) [
  | none ↦ none
  | some decoded ↦ some (replace_pair b'~' b'0' b'~' (replace_pair b'~' b'1' b'/' decoded))
]

unfoldable pub encode_pointer_token : Text → Text
encode_pointer_token value =
    replace_unit b'/' (b'~' ∷ b'1' ∷ []) (replace_unit b'~' (b'~' ∷ b'0' ∷ []) value)

unfoldable pub component_reference_key : ComponentGroup → Text → Text
component_reference_key group name =
    text "#/components/" ++ (group_text group ++ b'/' ∷ encode_pointer_token name)

-- `rest` when `value` is `prefix` and `rest`.
unfoldable pub strip : Text → Text → Option Text
strip [] value = some value
strip (p ∷ ps) [] = none
strip (p ∷ ps) (c ∷ cs) = elim (nat_eq p c) [ true ↦ strip ps cs | false ↦ none ]

-- The parts in front of the first `/` and behind it.
unfoldable pub split_slash : Text → Option (Text × Text)
split_slash [] = none
split_slash (c ∷ cs) = elim (nat_eq c b'/') [
  | true ↦ some ([], cs)
  | false ↦ elim (split_slash cs) [ none ↦ none | some (front, back) ↦ some (c ∷ front, back) ]
]

-- `([^/]+)`
unfoldable pub is_segment : Text → Bool
is_segment [] = false
is_segment (c ∷ cs) = not (contains (c ∷ cs) b'/')

-- The two groups of the match of `/^#\/components\/([^/]+)\/([^/]+)$/`.
unfoldable pub match_reference : Text → Option (Text × Text)
unfolding strip split_slash is_segment
match_reference ref = elim (strip (text "#/components/") ref) [
  | none ↦ none
  | some rest ↦ elim (split_slash rest) [
    | none ↦ none
    | some (front, back) ↦ elim (is_segment front) [
      | false ↦ none
      | true ↦ elim (is_segment back) [ true ↦ some (front, back) | false ↦ none ]
    ]
  ]
]

unfoldable pub group_of : Text → Option ComponentGroup
unfolding group_text
group_of t = find (λ g. text_eq (group_text g) t) openapi_component_groups

unfoldable pub parse_openapi_component_reference : Text → Option ReferenceKey
parse_openapi_component_reference ref = elim (match_reference ref) [
  | none ↦ none
  | some (front, back) ↦ elim (decode_pointer_token front) [
    | none ↦ none
    | some group_name ↦ elim (group_of group_name) [
      | none ↦ none
      | some group ↦ elim (decode_pointer_token back) [
        | none ↦ none
        | some name ↦
            some (record { group = group; name = name; ref = component_reference_key group name })
      ]
    ]
  ]
]

-- `if (parsed) refs.add(parsed.ref)`
unfoldable pub parsed_reference : Text → List Text
parsed_reference t = elim (parse_openapi_component_reference t) [ none ↦ [] | some k ↦ k.ref ∷ [] ]

unfoldable pub own_reference : Fields → List Text
own_reference object = elim (string_of (property (text "$ref") object)) [
  | none ↦ []
  | some t ↦ parsed_reference t
]

-- `Object.keys(record(requirement) ?? {})`
unfoldable pub requirement_names : Json → List Text
requirement_names v = elim (record_of v) [ none ↦ [] | some requirement ↦ keys requirement ]

unfoldable pub security_references : Items → List Text
unfolding requirement_names
security_references nil = []
security_references (item v vs) =
    map (component_reference_key security_schemes) (requirement_names v) ++ security_references vs

-- `visit(node, parentKey)`: `in_mapping` says that `parentKey` is 'mapping'.
unfoldable mutual
  pub collect : (in_mapping : Bool) → Json → List Text
  collect in_mapping (str t) = elim in_mapping [ true ↦ parsed_reference t | false ↦ [] ]
  collect in_mapping (arr vs) = collect_items in_mapping vs
  collect in_mapping (obj fs) = own_reference fs ++ collect_fields fs
  collect in_mapping _ = []

  pub collect_items : Bool → Items → List Text
  collect_items in_mapping nil = []
  collect_items in_mapping (item v vs) = collect in_mapping v ++ collect_items in_mapping vs

  -- The loop over the keys of an object.
  pub collect_fields : Fields → List Text
  collect_fields end = []
  collect_fields (field k v fs) = collect_entry k v ++ collect_fields fs

  pub collect_entry : Text → Json → List Text
  collect_entry k (arr vs) = elim (text_eq k (text "security")) [
    | true ↦ security_references vs
    | false ↦ collect_items (text_eq k (text "mapping")) vs
  ]
  collect_entry k (obj fs) = elim (text_eq k (text "mapping")) [
    | true ↦ collect_mapping fs
    | false ↦ own_reference fs ++ collect_fields fs
  ]
  collect_entry k (str t) = elim (text_eq k (text "mapping")) [
    | true ↦ parsed_reference t
    | false ↦ []
  ]
  collect_entry k _ = []

  pub collect_mapping : Fields → List Text
  collect_mapping end = []
  collect_mapping (field k v fs) = collect true v ++ collect_mapping fs

unfoldable pub collect_openapi_component_references : Json → List Text
collect_openapi_component_references value = sorted_set (collect false value)

pub record ReferenceGraph : Type 0 where
  pub nodes : List Text
  pub edges : List (Text × List Text)

-- `graph.edges[key] ?? []`
unfoldable pub edges_of : ReferenceGraph → Text → List Text
edges_of graph key = elim (get key graph.edges) [ none ↦ [] | some es ↦ es ]

-- `record(record(document.components)?.[group])`
unfoldable pub component_map : Option Fields → ComponentGroup → Fields
component_map none group = end
component_map (some document) group = elim (property (text "components") document) [
  | none ↦ end
  | some v ↦ elim (record_of v) [
    | none ↦ end
    | some components ↦ elim (property (group_text group) components) [
      | none ↦ end
      | some w ↦ elim (record_of w) [ none ↦ end | some fs ↦ fs ]
    ]
  ]
]

-- The references of a component that need not be there.
unfoldable pub references_at : Text → Fields → List Text
references_at name components = elim (property name components) [
  | none ↦ []
  | some v ↦ collect_openapi_component_references v
]

module _ (document resolved : Option Fields) where
  add_names : ComponentGroup → List Text → ReferenceGraph → ReferenceGraph
  add_names group [] graph = graph
  add_names group (name ∷ names) graph = add_names group names (record {
    nodes = graph.nodes ++ component_reference_key group name ∷ [];
    edges =
        put (component_reference_key group name)
          (sorted_set (
            references_at name (component_map document group)
            ++ references_at name (component_map resolved group)))
          graph.edges;
  })

  add_groups : List ComponentGroup → ReferenceGraph → ReferenceGraph
  add_groups [] graph = graph
  add_groups (group ∷ groups) graph =
      add_groups groups (add_names group (sort text_le (keys (component_map document group))) graph)

  unfoldable pub build_openapi_reference_graph : ReferenceGraph
  unfolding add_names add_groups
  build_openapi_reference_graph =
      add_groups openapi_component_groups (record { nodes = []; edges = [] })
