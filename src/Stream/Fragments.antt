-- ===== src/Stream/Fragments.antt =====
-- internal/stream/sse.go: the content fragments of an event's data. `encoding/json` and
-- `strconv.Itoa` are parameters; a decoded text is the list of its bytes.
use llm_security_audit_gatew.Base.{
  ℕ, ◌+◌, String, ℤ, pos, List, [], ◌∷◌, ◌++◌, Option, none, some, str_eq, concat, Bytes, ◌==◌, not,
  ◌||◌, if◌then◌else◌,
}

pub record Fragment : Type 0 where
  pub channel : String
  pub text : Bytes

-- The anonymous structs that `ExtractFragments` decodes into.
pub record ToolCall : Type 0 where
  pub index : Option ℤ
  pub arguments : Bytes

pub record Choice : Type 0 where
  pub index : Option ℤ
  pub text : Bytes
  pub content : Bytes
  pub function_arguments : Bytes
  pub tool_calls : List ToolCall

pub record Combined : Type 0 where
  pub kind : String
  pub item_id : String
  pub output_index : Option ℤ
  pub content_index : Option ℤ
  pub summary_index : Option ℤ
  pub delta : Bytes
  pub choices : List Choice

pub record Codec : Type 0 where
  pub unmarshal : Bytes → Option Combined
  pub unmarshal_string : Bytes → Option Bytes
  pub itoa : ℤ → String

-- `if text != "" { fragments = append(fragments, ...) }`.
abbrev pub fragment_if : Bytes → String → List Fragment
fragment_if [] channel = []
fragment_if (b ∷ bs) channel = record { channel = channel; text = b ∷ bs } ∷ []

abbrev pub index_or : Option ℤ → ℕ → ℤ
index_or none position = pos position
index_or (some i) position = i

module _ (codec : Codec) where
  open codec use {unmarshal, unmarshal_string, itoa}

  unfoldable pub response_index : Option ℤ → String
  response_index none = "unknown"
  response_index (some i) = itoa i

  unfoldable pub response_channel : String → String → Option ℤ → String → Option ℤ → String
  response_channel event_type item_id output_index suffix suffix_index =
      let item = if str_eq item_id "" then "unknown" else item_id in
      let channel = concat (
        "responses:"
        ∷ event_type
        ∷ ":item:"
        ∷ item
        ∷ ":output:"
        ∷ response_index output_index
        ∷ []) in
      if str_eq suffix ""
      then channel
      else concat (channel ∷ ":" ∷ suffix ∷ ":" ∷ response_index suffix_index ∷ [])

  -- The channel that `responseFragments` chooses; `none` is its `default` case.
  unfoldable pub response_kind : String → String → Option ℤ → Option ℤ → Option ℤ → Option String
  response_kind event_type item_id output_index content_index summary_index =
      if str_eq event_type "response.output_text.delta"
        || str_eq event_type "response.refusal.delta"
        || str_eq event_type "response.reasoning_text.delta"
      then some (response_channel event_type item_id output_index "content" content_index)
      else if str_eq event_type "response.reasoning_summary_text.delta"
      then some (response_channel event_type item_id output_index "summary" summary_index)
      else if str_eq event_type "response.function_call_arguments.delta"
      then some (response_channel event_type item_id output_index "" none)
      else none

  abbrev fragment_of : Option String → Bytes → List Fragment
  fragment_of none delta = []
  fragment_of (some channel) delta = fragment_if delta channel

  unfoldable pub response_fragments :
      String → String → Option ℤ → Option ℤ → Option ℤ → Bytes → List Fragment
  response_fragments event_type item_id output_index content_index summary_index delta =
      fragment_of (response_kind event_type item_id output_index content_index summary_index) delta

  -- `rawString`.
  unfoldable pub raw_string : Bytes → Bytes
  raw_string [] = []
  raw_string (b ∷ bs) =
      if not (b == b'"')
      then []
      else elim (unmarshal_string (b ∷ bs)) [ none ↦ [] | some value ↦ value ]

  -- The loop over a choice's tool calls, from a position on.
  unfoldable pub tool_fragments : ℤ → ℕ → List ToolCall → List Fragment
  tool_fragments choice position [] = []
  tool_fragments choice position (call ∷ calls) =
      fragment_if call.arguments (
        concat (
          "chat:choice:"
          ∷ itoa choice
          ∷ ":tool:"
          ∷ itoa (index_or call.index position)
          ∷ ":arguments"
          ∷ []))
      ++ tool_fragments choice (position + 1) calls

  -- The loop over the choices, from a position on.
  unfoldable pub choice_fragments : ℕ → List Choice → List Fragment
  unfolding tool_fragments
  choice_fragments position [] = []
  choice_fragments position (choice ∷ choices) =
      let i = index_or choice.index position in
      fragment_if choice.content (concat ("chat:choice:" ∷ itoa i ∷ ":content" ∷ []))
      ++ (fragment_if choice.function_arguments
            (concat ("chat:choice:" ∷ itoa i ∷ ":function_call:arguments" ∷ []))
          ++ (tool_fragments i 0 choice.tool_calls
              ++ (fragment_if choice.text (concat ("completion:choice:" ∷ itoa i ∷ ":text" ∷ []))
                  ++ choice_fragments (position + 1) choices)))

  abbrev fragments_of : Combined → List Fragment
  fragments_of c =
      if not (str_eq c.kind "")
      then response_fragments c.kind c.item_id c.output_index c.content_index c.summary_index
          (raw_string c.delta)
      else choice_fragments 0 c.choices

  unfoldable pub extract_fragments : Bytes → List Fragment
  extract_fragments payload = elim (unmarshal payload) [ none ↦ [] | some c ↦ fragments_of c ]
