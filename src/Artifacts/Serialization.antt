-- ===== src/Artifacts/Serialization.antt =====
-- packages/core/src/artifacts/index.ts: `stableJSONStringify` and the bytes of an artifact. A tree has
-- no cycle; `JSON.stringify`, with an indentation of 2, and the printing of source files, which may
-- throw, are arguments.
use openapi_to.Common.{
  not, ◌>>=◌, ℕ, Bool, true, false, ◌&&◌, ◌||◌, Option, none, some, List, [], ◌∷◌, ◌++◌, Text, text,
  text_eq, text_lt, text_le, starts_with, Result, ok, err, utf8, if◌then◌else◌, ltb, leb, nat_eq,
  length,
}
use openapi_to.Common.Json.{Json, arr, obj, Items, nil, item, Fields, end, field}
use openapi_to.Artifacts.{Payload, typescript, written_text, json, binary}

abbrev all_digits : Text → Bool
all_digits [] = true
all_digits (c ∷ cs) = (leb b'0' c && leb c b'9') && all_digits cs

-- A name that is an array index; JavaScript lists such properties first, by number.
is_index : Text → Bool
is_index [] = false
is_index (c ∷ cs) =
    text_eq (c ∷ cs) (text "0")
    || (not (nat_eq c b'0')
        && all_digits (c ∷ cs)
        && (ltb (length cs) 9 || (nat_eq (length cs) 9 && text_lt (c ∷ cs) (text "4294967295"))))

-- The order in which an object lists properties that were set in sorted order.
property_le : Text → Text → Bool
unfolding is_index
property_le k l =
    if is_index k
    then not (is_index l)
      || (ltb (length k) (length l) || (nat_eq (length k) (length l) && text_le k l))
    else not (is_index l) && text_le k l

insert_property : Text → Json → Fields → Fields
unfolding property_le
insert_property k v end = field k v end
insert_property k v (field l w fs) =
    if property_le k l then field k v (field l w fs) else field l w (insert_property k v fs)

-- `stableJSONValue`
unfoldable mutual
  unfolding insert_property

  pub stable_json_value : Json → Json
  stable_json_value (arr vs) = arr (stable_items vs)
  stable_json_value (obj fs) = obj (stable_fields fs)
  stable_json_value v = v

  pub stable_items : Items → Items
  stable_items nil = nil
  stable_items (item v vs) = item (stable_json_value v) (stable_items vs)

  pub stable_fields : Fields → Fields
  stable_fields end = end
  stable_fields (field k v fs) = insert_property k (stable_json_value v) (stable_fields fs)

abbrev pub generated_typescript_header : Text
generated_typescript_header =
    text
      "/**\n * Generated by openapi-to. DO NOT EDIT.\n * Regenerate from the OpenAPI document and openapi-to configuration.\n * @generated\n */\n\n"

unfoldable pub prepend_generated_typescript_header : Text → Text
prepend_generated_typescript_header source =
    if starts_with generated_typescript_header source
    then source
    else generated_typescript_header ++ source

module _ (stringify : Json → Text) where
  unfoldable pub stable_json_stringify : Option Json → Result (Option Text) Text
  unfolding stable_json_value
  stable_json_stringify none = err (some (text "JSON artifact value is not serializable."))
  stable_json_stringify (some v) = ok (stringify (stable_json_value v) ++ text "\n")

module _ {S : Type 0} (full_text : S → Result (Option Text) Text) (stringify : Json → Text) where
  -- The `try` block of `materializeArtifacts`: the bytes, or the message of the exception.
  unfoldable pub content_of : Payload S → Result (Option Text) (List ℕ)
  unfolding prepend_generated_typescript_header stable_json_stringify
  content_of (typescript s) = full_text s >>= λ t. ok (utf8 (prepend_generated_typescript_header t))
  content_of (written_text t) = ok (utf8 t)
  content_of (json v) = stable_json_stringify stringify v >>= λ t. ok (utf8 t)
  content_of (binary bytes) = ok bytes
