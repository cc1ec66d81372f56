-- ===== src/Proxy/Upstream.antt =====
-- internal/proxy/proxy.go: `DoUpstream` and `copyHeaders`. The functions of the libraries on texts,
-- URLs, header names and gzip, and the server that is asked, are parameters; a response body is
-- given as what its reader delivers, whole and cut for the stream's reader.
pub mod Requests
pub mod Responses
use llm_security_audit_gatew.Base.{
  ℕ, suc, ◌+◌, String, ℤ, pos_part, List, [], ◌∷◌, ◌++◌, length, take, Option, none, some, Bool,
  true, false, not, ◌&&◌, ◌||◌, leb, str_eq, concat, starts_with, lookup, insert, erase,
  if◌then◌else◌, Bytes,
}
use llm_security_audit_gatew.Base.Result.{Result, ok, err}
use llm_security_audit_gatew.Base.Tables.{member}
use llm_security_audit_gatew.Stream.Events.{Slice, Event}
use llm_security_audit_gatew.Stream.Copy.{
  World, Copied, CopyEnd, finished, context_done, inspection_blocked, write_failed, too_large_event,
  source_failed, out_of_fuel, copy,
}

abbrev pub Headers : Type 0
Headers = List (String × List String)

pub record Upstream : Type 0 where
  pub base_url : String
  pub api_key : String
  pub enabled : Bool

pub record Request : Type 0 where
  pub method : String
  pub path : String
  pub query : String
  pub headers : Headers
  pub body : Bytes

-- `content` is what the body's reader delivers before its end or its error.
pub record Body : Type 0 where
  pub slices : List Slice
  pub content : Bytes
  pub read_error : Option String

pub record Response : Type 0 where
  pub status : ℕ
  pub headers : Headers
  pub uncompressed : Bool
  pub body : Body

-- The libraries; `new_request` is the error of `http.NewRequestWithContext` for a method, a path and a
-- query.
pub record Libraries : Type 0 where
  pub trim_space : String → String
  pub trim_slashes : String → String
  pub join_path : String → String → Result String String
  pub parsed_path : String → Result String String
  pub clean : String → String
  pub canonical : String → String
  pub to_lower : String → String
  pub contains : String → String → Bool
  pub new_request : String → String → String → Option String
  pub send : Request → Result String Response
  pub gunzip : Body → Result String Body

-- What `DoUpstream` returns.
pub data Outcome : Type 0 where
  completed : Outcome
  unavailable : Outcome
  escapes_boundary : Outcome
  failed : String → Outcome
  too_large : Outcome
  blocked : Bool → String → Outcome

-- What a call did: the request that went out, what it told the client, and its result.
pub record Exchange : Type 0 where
  pub request : Option Request
  pub started : Option (ℕ × Headers)
  pub body : Bytes
  pub events : List Event
  pub outcome : Outcome

-- `upstreamForwardHeaders`.
abbrev pub is_forwarded : String → Bool
is_forwarded name = member name (
    "Accept" ∷ "Accept-Charset" ∷ "Content-Type" ∷ "User-Agent" ∷ "X-Request-Id" ∷ "OpenAI-Beta"
    ∷ [])

abbrev pub values_of : Option (List String) → List String
values_of none = []
values_of (some values) = values

-- `Header.Get`.
abbrev pub first_of : List String → String
first_of [] = ""
first_of (value ∷ values) = value

module _ (l : Libraries) where
  -- `Header.Add`, for each of the values.
  unfoldable pub add_all : String → List String → Headers → Headers
  add_all key [] dst = dst
  add_all key (value ∷ values) dst =
      let name = l.canonical key in
      add_all key values (insert name (values_of (lookup name dst) ++ (value ∷ [])) dst)

  unfoldable pub copy_headers : Headers → Headers → Headers
  unfolding add_all
  copy_headers dst [] = dst
  copy_headers dst ((key, values) ∷ src) =
      copy_headers (if is_forwarded (l.canonical key) then add_all key values dst else dst) src

  abbrev pub header : String → Headers → String
  header name headers = first_of (values_of (lookup name headers))

  -- The request, `path` being `url.Parse`'s path cleaned.
  abbrev pub request_to : Upstream → String → String → String → Bytes → Headers → Request
  request_to upstream method path query body headers =
      let forwarded = copy_headers [] headers in
      record {
        method = method;
        path = path;
        query = query;
        headers =
            if str_eq upstream.api_key ""
            then forwarded
            else insert "Authorization" (concat ("Bearer " ∷ upstream.api_key ∷ []) ∷ []) forwarded;
        body = body;
      }

  abbrev pub stop : Option Request → Outcome → Exchange
  stop request outcome = record {
    request = request;
    started = none;
    body = [];
    events = [];
    outcome = outcome;
  }

  -- How an end of `stream.Copy` is reported.
  abbrev pub stream_outcome : CopyEnd → Outcome
  stream_outcome finished = completed
  stream_outcome inspection_blocked = blocked true "stream_policy_blocked"
  stream_outcome too_large_event = blocked true "sse_event_too_large"
  stream_outcome (context_done e) = failed e
  stream_outcome (write_failed e) = failed e
  stream_outcome (source_failed e) = failed e
  stream_outcome out_of_fuel = failed "out of fuel"

  -- `io.ReadAll` of a reader limited to `limit` bytes.
  abbrev pub read_limited : ℕ → Body → Result String Bytes
  read_limited limit body =
      if leb limit (length body.content)
      then ok (take limit body.content)
      else elim body.read_error [ none ↦ ok body.content | some e ↦ err e ]

  -- The answer that is no stream; `inspect` and `write` are the client's.
  abbrev pub whole :
      ℕ
      → (Bytes → Bool)
      → (Bytes → Option String)
      → Request
      → ℕ
      → Headers
      → Result String Bytes
      → Exchange
  whole max inspect write request status headers (err e) = stop (some request) (failed e)
  whole max inspect write request status headers (ok content) =
      if leb (suc max) (length content)
      then stop (some request) too_large
      else if not (inspect content)
      then stop (some request) (blocked false "")
      else record {
        request = some request;
        started = some (status, headers);
        body = content;
        events = [];
        outcome = elim (write content) [ none ↦ completed | some e ↦ failed e ];
      }

  abbrev pub is_gzip : Response → Bool
  is_gzip response =
      let encoding = l.to_lower (header "Content-Encoding" response.headers) in
      not response.uncompressed && (str_eq encoding "gzip" || str_eq encoding "x-gzip")

  abbrev pub is_stream : Headers → Bool
  is_stream headers = l.contains (l.to_lower (header "Content-Type" headers)) "text/event-stream"

  module _ {S : Type 0} (world : World S) (parse : Bytes → Event) (start : S) where
    -- Behind the response: `body` and `headers` are those that the `gzip` wrap left.
    abbrev pub relay :
        ℤ → ℕ → (Bytes → Bool) → (Bytes → Option String) → Request → ℕ → Headers → Body → Exchange
    relay max_event max inspect write request status headers body =
        let copied = copy world parse max_event start body.slices in
        if is_stream headers
        then record {
          request = some request;
          started = some (status, headers);
          body = [];
          events = copied.forwarded;
          outcome = stream_outcome copied.outcome;
        }
        else whole max inspect write request status headers (read_limited (suc max) body)

    abbrev pub unzipped :
        ℤ
        → ℕ
        → (Bytes → Bool)
        → (Bytes → Option String)
        → Request
        → Response
        → Result String Body
        → Exchange
    unzipped max_event max inspect write request response (err e) = stop (some request) (failed e)
    unzipped max_event max inspect write request response (ok body) =
        relay max_event max inspect write request response.status
          (erase "Content-Encoding" response.headers) body

    abbrev pub on_response :
        ℤ
        → ℕ
        → (Bytes → Bool)
        → (Bytes → Option String)
        → Request
        → Result String Response
        → Exchange
    on_response max_event max inspect write request (err e) = stop (some request) (failed e)
    on_response max_event max inspect write request (ok response) =
        if is_gzip response
        then unzipped max_event max inspect write request response (l.gunzip response.body)
        else relay max_event max inspect write request response.status response.headers
            response.body

    abbrev pub on_request :
        ℤ → ℕ → (Bytes → Bool) → (Bytes → Option String) → Request → Option String → Exchange
    on_request max_event max inspect write request (some e) = stop none (failed e)
    on_request max_event max inspect write request none =
        on_response max_event max inspect write request (l.send request)

    -- From the parsed URL on.
    abbrev pub on_path :
        ℤ
        → ℕ
        → (Bytes → Bool)
        → (Bytes → Option String)
        → Upstream
        → String
        → String
        → Bytes
        → Headers
        → Result String String
        → Exchange
    on_path max_event max inspect write upstream method query body headers (err e) =
        stop none (failed e)
    on_path max_event max inspect write upstream method query body headers (ok path) =
        let path' = l.clean (concat ("/" ∷ path ∷ [])) in
        let request = request_to upstream method path' query body headers in
        if not (starts_with path' "/v1/")
        then stop none escapes_boundary
        else on_request max_event max inspect write request (l.new_request method path' query)

    abbrev pub on_target :
        ℤ
        → ℕ
        → (Bytes → Bool)
        → (Bytes → Option String)
        → Upstream
        → String
        → String
        → Bytes
        → Headers
        → Result String String
        → Exchange
    on_target max_event max inspect write upstream method query body headers (err e) =
        stop none (failed e)
    on_target max_event max inspect write upstream method query body headers (ok target) =
        on_path max_event max inspect write upstream method query body headers
          (l.parsed_path target)

    unfoldable pub do_upstream :
        ℤ
        → ℕ
        → (Bytes → Bool)
        → (Bytes → Option String)
        → Upstream
        → String
        → String
        → String
        → Bytes
        → Headers
        → Exchange
    unfolding copy_headers
    do_upstream max_event max inspect write upstream method path query body headers =
        if not upstream.enabled || str_eq (l.trim_space upstream.base_url) ""
        then stop none unavailable
        else on_target max_event max inspect write upstream method query body headers
            (l.join_path (l.trim_slashes upstream.base_url) path)
