-- ===== src/Analytics/Processor/Payload.antt =====
-- What analytics/src/processor.ts reads of an event.
use escld.Prelude.{
  String, Bool, ◌||◌, Option, none, some, List, [], ◌∷◌, ◌==◌, if◌then◌else◌, take, Result, ok, err,
}
use Prim.Native.String as Text
use Prim.Native.String.{◌++◌ as append_text}
use text.Mathlib.Text.{starts_with}
use escld.Js.Int.{ℤ, pos}
use escld.Js.Json.{Json, str, arr, obj, null, Engine, prop, items, as_string, or_null}
use escld.Js.Text.{utf16_take}

-- `typeof value === "string" ? value : …`.
abbrev pub text_of : Option Json → Option String
text_of (some (str s)) = some s
text_of _ = none

abbrev pub texts : List Json → List String
texts [] = []
texts (str s ∷ vs) = s ∷ texts vs
texts (v ∷ vs) = texts vs

-- `Array.isArray(value) ? value.filter(string) : []`.
abbrev pub string_items : Option Json → List String
string_items (some (arr vs)) = texts (items vs)
string_items _ = []

abbrev pub characters : String → List Json
characters Text.[] = []
characters (Text.◌∷◌ c s) = str (Text.◌∷◌ c "") ∷ characters s

abbrev pub nonempty_texts : List String → List String
nonempty_texts [] = []
nonempty_texts (s ∷ ss) = if s == "" then nonempty_texts ss else s ∷ nonempty_texts ss

-- The parts of an envelope that the processor reads.
abbrev pub payload_of : Json → Json
payload_of v = or_null (prop "payload" v)

abbrev pub event_type_of : Json → String
event_type_of v = as_string (prop "eventType" v)

abbrev pub event_id_of : Json → String
event_id_of v = as_string (prop "eventId" v)

abbrev pub post_id_of : Json → Option String
post_id_of v = text_of (prop "postId" (payload_of v))

-- `parsed.actorId ?? null` where it is truthy. Version 1 leaves the type of the field unchecked.
abbrev pub truthy_text : Engine → Option Json → Option String
truthy_text engine none = none
truthy_text engine (some null) = none
truthy_text engine (some (str s)) = if s == "" then none else some s
truthy_text engine (some v) = engine.as_text v

abbrev pub actor_of : Engine → Json → Option String
actor_of engine v = truthy_text engine (prop "actorId" v)

-- `entityKey`.
unfoldable pub entity_key_of : String → Option String → Option String
entity_key_of event_type none = none
entity_key_of event_type (some post_id) =
    some (append_text "post:" (append_text post_id (append_text ":" event_type)))

unfoldable pub feature_author : Json → Option String
feature_author v = elim (text_of (prop "authorId" (payload_of v))) [
  | some author ↦ some author
  | none ↦
      if starts_with (event_type_of v) "user."
      then text_of (prop "followeeId" (payload_of v))
      else none
]

-- What the loop over `payloadTags.slice(0, 10)` visits. The payload is not validated: a text is
-- visited by characters, and an object with a positive `length` has no `slice`, which throws.
unfoldable pub visited_tags : Engine → Option Json → Result (List Json)
visited_tags engine (some (arr vs)) = ok (take 10 (items vs))
visited_tags engine (some (str s)) = ok (characters (utf16_take 10 s))
visited_tags engine (some (obj fs)) =
    if engine.is_positive (prop "length" (obj fs)) then err else ok []
visited_tags engine _ = ok []

abbrev pub deletion_events : String → Bool
deletion_events event_type =
    event_type == "user.deletion_requested" || event_type == "user.deletion_completed"

abbrev pub time_or_zero : Option ℤ → ℤ
time_or_zero none = pos 0
time_or_zero (some t) = t
