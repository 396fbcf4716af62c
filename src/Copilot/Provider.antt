-- ===== src/Copilot/Provider.antt =====
-- `OpenAICompatibleProvider.complete` and `_parse_provider_response` of
-- src/edgar_moe/copilot/agent.py. The pauses between attempts are left out.
pub mod Attempts
use edgar_moe.Common.{
  ℕ, zero, suc, ◌+◌, String, Bool, true, false, not, ◌&&◌, ◌||◌, Option, none, some, List, [], ◌∷◌,
  if◌then◌else◌, ◌==◌, ltb, leb, string_eq, nat_eq,
}
use edgar_moe.Common.Outcomes.{Outcome, returned, raised, ◌>>=◌, ◌>>◌, ensure}
use edgar_moe.Copilot.Contracts.{ProviderToolCall, ProviderUsage, ProviderResponse}

-- What `json.loads` gives. The keys of an object are distinct.
mutual
  pub data JsonValue : Type 0 where
    null : JsonValue
    boolean : Bool → JsonValue
    integer : ℕ → JsonValue
    negative : (magnitude : ℕ) → JsonValue
    float : String → JsonValue
    text : String → JsonValue
    array : JsonItems → JsonValue
    object : JsonFields → JsonValue

  pub data JsonItems : Type 0 where
    no_items : JsonItems
    item : JsonValue → JsonItems → JsonItems

  pub data JsonFields : Type 0 where
    no_fields : JsonFields
    field : String → JsonValue → JsonFields → JsonFields

-- `fields.get(key, default)`
abbrev pub get_or : JsonValue → String → JsonFields → JsonValue
get_or default key no_fields = default
get_or default key (field k v fs) = if k == key then v else get_or default key fs

-- What one attempt gives: a body, of which the code reads one byte more than the limit at most, an
-- HTTP error, or another failure to reach the provider. `decoded` is `json.loads` of the body.
pub record Body : Type 0 where
  pub size : ℕ
  pub decoded : Option JsonValue

pub data Attempt : Type 0 where
  body : Body → Attempt
  http_error : (code : ℕ) → Attempt
  unreachable : Attempt

pub data ProviderError : Type 0 where
  http : (code : ℕ) → ProviderError
  request_failed too_large invalid_json not_an_object no_choice no_message : ProviderError
  usage_invalid : ProviderError
  out_of_fuel : ProviderError

abbrev pub max_provider_response_bytes : ℕ
max_provider_response_bytes = 2000000

abbrev pub max_provider_usage_tokens : ℕ
max_provider_usage_tokens = 100000000

-- `_RETRYABLE_HTTP_STATUSES`
abbrev pub is_retryable : ℕ → Bool
is_retryable code = code == 408 || (code == 425 || (code == 429 || (leb 500 code && ltb code 600)))

-- What is done with the `attempts`-th attempt; `again` is what another round of the loop gives.
abbrev pub after_attempt :
    (max_retries attempts : ℕ)
    → Attempt
    → Outcome ProviderError (Body × ℕ)
    → Outcome ProviderError (Body × ℕ)
after_attempt max_retries attempts (body b) again = returned (b, attempts)
after_attempt max_retries attempts (http_error code) again =
    if not (is_retryable code) || ltb max_retries attempts then raised (http code) else again
after_attempt max_retries attempts unreachable again =
    if ltb max_retries attempts then raised request_failed else again

-- `while True`, after `attempts` attempts. The fuel bounds those that are left.
unfoldable pub send :
    (max_retries : ℕ) (transport : ℕ → Attempt) (fuel attempts : ℕ)
    → Outcome ProviderError (Body × ℕ)
send max_retries transport zero attempts = raised out_of_fuel
send max_retries transport (suc fuel) attempts =
    after_attempt max_retries (suc attempts) (transport (suc attempts))
      (send max_retries transport fuel (suc attempts))

abbrev as_text : JsonValue → String
as_text (text s) = s
as_text _ = ""

abbrev as_items : JsonValue → JsonItems
as_items (array vs) = vs
as_items _ = no_items

-- One entry of `tool_calls`, unless it is malformed.
abbrev parse_tool_call : JsonValue → Option ProviderToolCall
parse_tool_call (object call) = elim (get_or null "function" call) [
  | object fn ↦ elim (get_or null "name" fn) [
    | text name ↦ elim (get_or (text "{}") "arguments" fn) [
      | text arguments ↦
          if name == ""
          then none
          else some (record {
            call_id = as_text (get_or null "id" call);
            name = name;
            arguments = arguments;
          })
      | _ ↦ none
    ]
    | _ ↦ none
  ]
  | _ ↦ none
]
parse_tool_call _ = none

abbrev parse_tool_calls : JsonItems → List ProviderToolCall
parse_tool_calls no_items = []
parse_tool_calls (item v vs) = elim (parse_tool_call v) [
  | none ↦ parse_tool_calls vs
  | some call ↦ call ∷ parse_tool_calls vs
]

-- `_usage_count`
unfoldable pub usage_count : JsonValue → Outcome ProviderError (Option ℕ)
usage_count null = returned none
usage_count (integer n) =
    if leb n max_provider_usage_tokens then returned (some n) else raised usage_invalid
usage_count _ = raised usage_invalid

-- `_parse_provider_usage`
unfoldable pub parse_provider_usage : JsonValue → Outcome ProviderError (Option ProviderUsage)
parse_provider_usage null = returned none
parse_provider_usage (object usage) = do
  prompt ← usage_count (get_or null "prompt_tokens" usage)
  completion ← usage_count (get_or null "completion_tokens" usage)
  total ← usage_count (get_or null "total_tokens" usage)
  returned (
      some
        (record { prompt_tokens = prompt; completion_tokens = completion; total_tokens = total }))
parse_provider_usage _ = raised usage_invalid

as_object : ProviderError → JsonValue → Outcome ProviderError JsonFields
as_object e (object fs) = returned fs
as_object e _ = raised e

first_item : JsonValue → Outcome ProviderError JsonValue
first_item (array (item v vs)) = returned v
first_item _ = raised no_choice

unfoldable pub parse_provider_response :
    (fallback_model : String) → JsonValue → Outcome ProviderError ProviderResponse
unfolding as_object first_item
parse_provider_response fallback_model value = do
  payload ← as_object not_an_object value
  first ← first_item (get_or null "choices" payload)
  choice ← as_object no_choice first
  message ← as_object no_message (get_or null "message" choice)
  usage ← parse_provider_usage (get_or null "usage" payload)
  let model = as_text (get_or null "model" payload)
  returned (record {
    content = as_text (get_or (text "") "content" message);
    tool_calls = parse_tool_calls (as_items (get_or null "tool_calls" message));
    model = if model == "" then fallback_model else model;
    usage = usage;
    request_count = 1;
  })

decoded_json : Option JsonValue → Outcome ProviderError JsonValue
decoded_json none = raised invalid_json
decoded_json (some v) = returned v

unfoldable pub complete :
    (model : String) (max_retries : ℕ) (transport : ℕ → Attempt)
    → Outcome ProviderError ProviderResponse
unfolding decoded_json
complete model max_retries transport = do
  (raw, attempts) ← send max_retries transport (max_retries + 1) 0
  ensure (leb raw.size max_provider_response_bytes) too_large
  payload ← decoded_json raw.decoded
  parsed ← parse_provider_response model payload
  returned (record parsed { request_count = attempts })
