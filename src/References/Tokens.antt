-- ===== src/References/Tokens.antt =====
-- Reference keys and the references that they are read from.
use openapi_to.Common.{
  ◌∙◌, sym, Option, value_of, ap, ◌≡◌, ◌≢◌, Text, contains, false, true, some, none, refl,
  nat_equality, text_equality, arith, [], ◌∷◌, ◌++◌, text, decode_uri_component,
  decode_uri_component-plain, replace_unit, replace_pair, replace_pair-replace_unit,
  replace_pair-replace_unit_self, find, text_eq,
}
use openapi_to.References.{
  ComponentGroup, schemas, parameters, request_bodies, responses, headers, security_schemes,
  callbacks, links, examples, group_text, group_of, decode_pointer_token, encode_pointer_token,
  component_reference_key, parse_openapi_component_reference, match_reference, strip, split_slash,
  is_segment,
}

unescaped :
    (t : Text)
    → replace_pair b'~' b'0' b'~' (replace_pair b'~' b'1' b'/' (encode_pointer_token t)) ≡ t
unfolding encode_pointer_token
unescaped t =
    rw
      (replace_pair-replace_unit b'~' b'1' b'/' b'0' t (ground arith) (ground arith) (ground arith)
        (ground arith) (ground arith) (ground arith))
      (replace_pair-replace_unit_self b'~' b'0' t (ground arith))

no_slash : (t : Text) → contains (encode_pointer_token t) b'/' ≡ false
unfolding encode_pointer_token replace_unit contains
no_slash [] = refl
no_slash (x ∷ xs) = ground (arith, no_slash xs)

no_percent : (t : Text) → contains t b'%' ≡ false → contains (encode_pointer_token t) b'%' ≡ false
unfolding encode_pointer_token replace_unit contains
no_percent [] h = refl
no_percent (x ∷ xs) h = ground (arith, no_percent xs)

-- Decoding undoes encoding for a name without `%`.
decode-encode :
    (t : Text) → contains t b'%' ≡ false → decode_pointer_token (encode_pointer_token t) ≡ some t
unfolding decode_pointer_token
decode-encode t h =
    rw (decode_uri_component-plain (encode_pointer_token t) (no_percent t h), decode_pointer_token)
      (ap some (unescaped t))

split_slash-append :
    (front back : Text)
    → contains front b'/' ≡ false
    → split_slash (front ++ b'/' ∷ back) ≡ some (front, back)
unfolding split_slash contains
split_slash-append [] back h = refl
split_slash-append (c ∷ cs) back h = ground (arith, split_slash-append cs back)

strip-append : (p t : Text) → strip p (p ++ t) ≡ some t
unfolding strip
strip-append [] t = refl
strip-append (c ∷ cs) t = ground (arith, strip-append cs t)

encode-ne-nil : (t : Text) → t ≢ [] → encode_pointer_token t ≢ []
unfolding encode_pointer_token replace_unit
encode-ne-nil [] h = absurd (h refl)
encode-ne-nil (x ∷ xs) h = ground arith

segment : (t : Text) → t ≢ [] → contains t b'/' ≡ false → is_segment t ≡ true
unfolding is_segment
segment [] h k = absurd (h refl)
segment (x ∷ xs) h k = rw k refl

-- The string of a group has no `/`, and the group is read back from it.
group-read :
    (g : ComponentGroup)
    → (is_segment (group_text g) ≡ true)
      × (contains (group_text g) b'/' ≡ false)
      × (decode_pointer_token (group_text g) ≡ some (group_text g))
      × (group_of (group_text g) ≡ some g)
unfolding is_segment contains decode_pointer_token decode_uri_component replace_pair group_of
    group_text text find text_eq
group-read schemas = (refl, refl, refl, refl)
group-read parameters = (refl, refl, refl, refl)
group-read request_bodies = (refl, refl, refl, refl)
group-read responses = (refl, refl, refl, refl)
group-read headers = (refl, refl, refl, refl)
group-read security_schemes = (refl, refl, refl, refl)
group-read callbacks = (refl, refl, refl, refl)
group-read links = (refl, refl, refl, refl)
group-read examples = (refl, refl, refl, refl)

match-key :
    (g : ComponentGroup) (name : Text)
    → name ≢ []
    → match_reference (component_reference_key g name)
      ≡ some (group_text g, encode_pointer_token name)
unfolding component_reference_key match_reference
match-key g name h =
    rw
      (
        strip-append (text "#/components/") (group_text g ++ b'/' ∷ encode_pointer_token name),
        match_reference,
      )
      (rw (split_slash-append (group_text g) (encode_pointer_token name) (group-read g).1) (
        rw ((group-read g).0)
          (rw (segment (encode_pointer_token name) (encode-ne-nil name h) (no_slash name)) refl)))

-- A key is parsed to its group and name, for a name that is not empty and has no `%`.
pub parse-component_reference_key :
    (g : ComponentGroup) (name : Text)
    → name ≢ []
    → contains name b'%' ≡ false
    → parse_openapi_component_reference (component_reference_key g name)
      ≡ some (record { group = g; name = name; ref = component_reference_key g name })
unfolding parse_openapi_component_reference
parse-component_reference_key g name h k =
    rw (match-key g name h, parse_openapi_component_reference)
      (rw ((group-read g).2) (rw ((group-read g).3) (rw (decode-encode name k) refl)))

key_parts : Text → Option (Text × Text)
key_parts t = elim (strip (text "#/components/") t) [ none ↦ none | some rest ↦ split_slash rest ]

key-parts :
    (g : ComponentGroup) (name : Text)
    → key_parts (component_reference_key g name) ≡ some (group_text g, encode_pointer_token name)
unfolding key_parts component_reference_key
key-parts g name =
    rw
      (
        strip-append (text "#/components/") (group_text g ++ b'/' ∷ encode_pointer_token name),
        key_parts,
      )
      (split_slash-append (group_text g) (encode_pointer_token name) (group-read g).1)

-- No two components have one key, whatever characters their names have.
pub component_reference_key-injective :
    (g h : ComponentGroup) (m n : Text)
    → component_reference_key g m ≡ component_reference_key h n
    → (g ≡ h) × (m ≡ n)
component_reference_key-injective g h m n e =
    let parts = value_of (sym (key-parts g m) ∙ ap key_parts e ∙ key-parts h n) in
    let names = ap (λ (p : Text × Text). p.1) parts in
    (
      value_of
          (sym (group-read g).3 ∙ ap (λ (p : Text × Text). group_of p.0) parts ∙ (group-read h).3),
      sym (unescaped m)
          ∙ ap (λ t. replace_pair b'~' b'0' b'~' (replace_pair b'~' b'1' b'/' t)) names
          ∙ unescaped n,
    )
